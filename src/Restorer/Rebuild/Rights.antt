-- ===== src/Restorer/Rebuild/Rights.antt =====
-- Protections of mappings, and views of a process that differ in them only.
use ksnap.Base.{ℕ, ◌≡◌, refl, ◌∙◌, List, [], ◌∷◌, All}
use ksnap.Format.{VmaDescriptor}
use ksnap.Restorer.Process.{View}
use ksnap.Restorer.Rebuild.{rwx}
use ksnap.Restorer.Rebuild.Memory.{In, Apart, Apart-In, All-Apart-In}

-- The pages of a mapping have the protection that `p` names.
abbrev pub Rights : (VmaDescriptor → ℕ) → View → VmaDescriptor → Type 0
Rights p w v = (x : ℕ) → In v x → w.prot x ≡ p v

abbrev pub own : VmaDescriptor → ℕ
own v = v.prot

abbrev pub all_rights : VmaDescriptor → ℕ
all_rights v = rwx

-- Two views that agree but on the protection of these mappings.
pub record SameBut (vmas : List VmaDescriptor) (w w' : View) : Type 0 where
  pub regs_kept : w'.regs ≡ w.regs
  pub bytes_kept : (x : ℕ) → w'.byte x ≡ w.byte x
  pub prot_kept : (x : ℕ) → All (λ v. ¬ In v x) vmas → w'.prot x ≡ w.prot x

pub SameBut-refl : (vmas : List VmaDescriptor) (w : View) → SameBut vmas w w
SameBut-refl vmas w = record { regs_kept = refl; bytes_kept = λ x. refl; prot_kept = λ x _. refl }

pub SameBut-append :
    (v : VmaDescriptor) (vmas : List VmaDescriptor) {w w1 w2 : View}
    → SameBut (v ∷ []) w w1
    → SameBut vmas w1 w2
    → SameBut (v ∷ vmas) w w2
SameBut-append v vmas k1 k2 = record {
  regs_kept = k2.regs_kept ∙ k1.regs_kept;
  bytes_kept = λ x. k2.bytes_kept x ∙ k1.bytes_kept x;
  prot_kept = λ x (out, outs). k2.prot_kept x outs ∙ k1.prot_kept x (out, tt);
}

pub SameBut-more :
    (v : VmaDescriptor) (vmas : List VmaDescriptor) {w w1 : View}
    → SameBut vmas w w1
    → SameBut (v ∷ vmas) w w1
SameBut-more v vmas k = record {
  regs_kept = k.regs_kept;
  bytes_kept = k.bytes_kept;
  prot_kept = λ x (out, outs). k.prot_kept x outs;
}

pub SameBut-fewer :
    (v : VmaDescriptor) (vmas : List VmaDescriptor) {w w1 : View}
    → SameBut (v ∷ []) w w1
    → SameBut (v ∷ vmas) w w1
SameBut-fewer v vmas k = record {
  regs_kept = k.regs_kept;
  bytes_kept = k.bytes_kept;
  prot_kept = λ x (out, outs). k.prot_kept x (out, tt);
}

pub SameBut-twice :
    (vmas : List VmaDescriptor) {w w1 w2 : View}
    → SameBut vmas w w1
    → SameBut vmas w1 w2
    → SameBut vmas w w2
SameBut-twice vmas k1 k2 = record {
  regs_kept = k2.regs_kept ∙ k1.regs_kept;
  bytes_kept = λ x. k2.bytes_kept x ∙ k1.bytes_kept x;
  prot_kept = λ x outs. k2.prot_kept x outs ∙ k1.prot_kept x outs;
}

-- Calls for the mappings that follow change nothing in this one.
pub Rights-SameBut :
    (p : VmaDescriptor → ℕ) (v : VmaDescriptor) (vmas : List VmaDescriptor) {w w1 : View}
    → All (Apart v) vmas
    → SameBut vmas w w1
    → Rights p w v
    → Rights p w1 v
Rights-SameBut p v vmas apart k rights x inside =
    k.prot_kept x (All-Apart-In v vmas x apart inside) ∙ rights x inside

-- A call for one mapping changes nothing in those that follow.
pub All-Rights-SameBut :
    (p : VmaDescriptor → ℕ) (v : VmaDescriptor) (vmas : List VmaDescriptor) {w w1 : View}
    → All (Apart v) vmas
    → SameBut (v ∷ []) w w1
    → All (Rights p w) vmas
    → All (Rights p w1) vmas
All-Rights-SameBut p v [] apart k rights = tt
All-Rights-SameBut p v (u ∷ vmas) (apart, aparts) k (rights, others) = (
  λ x inside. k.prot_kept x (λ here. Apart-In v u x apart here inside, tt) ∙ rights x inside,
  All-Rights-SameBut p v vmas aparts k others,
)
