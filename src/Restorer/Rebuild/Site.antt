-- ===== src/Restorer/Rebuild/Site.antt =====
-- The place of the injected instruction among the mappings.
use Prim.Native.Nat.{bit_and}
use ksnap.Base.{
  ℕ, ◌+◌, ◌^◌, ◌≤◌, ◌<◌, ◌≡◌, ap, ◌∙◌, ◌⊎◌, inl, inr, Bool, true, false, not, ◌&&◌, List, [], ◌∷◌,
  All, arith,
}
use ksnap.Format.{VmaDescriptor}
use ksnap.Restorer.Process.{Regs, View, exec_right, IsExecutable}
use ksnap.Restorer.Rebuild.{holds_site}
use ksnap.Restorer.Rebuild.Memory.{In, Apart, Apart-In}
use ksnap.Restorer.Rebuild.Rights.{SameBut}

-- No byte of the instruction is in the pages of the mapping.
abbrev pub Away : ℕ → VmaDescriptor → Type 0
Away rip v = (¬ In v rip) × (¬ In v (rip + 1))

-- A mapping whose pages have a byte of the instruction has the whole of it, inside the address
-- space. So it is where mappings are whole pages and the instruction does not straddle two.
abbrev pub HoldsWhole : ℕ → VmaDescriptor → Type 0
HoldsWhole rip v =
    In v rip ⊎ In v (rip + 1)
    → (v.start_address ≤ rip)
      × (rip + 1 < v.start_address + v.size)
      × (v.start_address + v.size < 2 ^ 64)

-- Before the mapping of the site is found, it may still come; behind it, none does.
abbrev pub Cleared : ℕ → Bool → VmaDescriptor → Type 0
Cleared rip true v = Away rip v
Cleared rip false v = HoldsWhole rip v

found_by_test :
    (rip : ℕ) (v : VmaDescriptor)
    → holds_site rip v ≡ false
    → ¬ (
        (v.start_address ≤ rip)
        × (rip + 1 < v.start_address + v.size)
        × (v.start_address + v.size < 2 ^ 64))
found_by_test rip v missed (low, high, small) = ground (arith, missed)

-- A mapping that is protected at once is away from the instruction.
pub Cleared-Away :
    (rip : ℕ) (found : Bool) (v : VmaDescriptor)
    → Cleared rip found v
    → (not found && holds_site rip v) ≡ false
    → Away rip v
Cleared-Away rip true v away h = away
Cleared-Away rip false v whole h = (
  λ inside. found_by_test rip v h (whole (inl inside)),
  λ inside. found_by_test rip v h (whole (inr inside)),
)

site_In : (rip : ℕ) (v : VmaDescriptor) → holds_site rip v ≡ true → In v rip
site_In rip v h = (ground (arith, h), ground (arith, h))

next_In : (rip : ℕ) (v : VmaDescriptor) → HoldsWhole rip v → In v rip → In v (rip + 1)
next_In rip v whole inside =
    let (low, high, small) = whole (inl inside) in (omega arith, omega arith)

All-Away :
    (rip : ℕ) (v : VmaDescriptor) (vmas : List VmaDescriptor)
    → In v rip
    → In v (rip + 1)
    → All (Apart v) vmas
    → All (Cleared rip true) vmas
All-Away rip v [] first second apart = tt
All-Away rip v (u ∷ vmas) first second (here, apart) = (
  (Apart-In v u rip here first, Apart-In v u (rip + 1) here second),
  All-Away rip v vmas first second apart,
)

-- Behind the mapping of the site, all others are away from it.
pub site-Cleared :
    (rip : ℕ) (found : Bool) (v : VmaDescriptor) (vmas : List VmaDescriptor)
    → (not found && holds_site rip v) ≡ true
    → Cleared rip found v
    → All (Apart v) vmas
    → All (Cleared rip true) vmas
site-Cleared rip true v vmas h away apart = cc
site-Cleared rip false v vmas h whole apart =
    let inside = site_In rip v h in All-Away rip v vmas inside (next_In rip v whole inside) apart

-- What changes no protection but that of a mapping away from the instruction leaves it executable.
pub Away-IsExecutable :
    (v : VmaDescriptor) (w w' : View)
    → Away w.regs.rip v
    → SameBut (v ∷ []) w w'
    → IsExecutable w
    → IsExecutable w'
Away-IsExecutable v w w' (out, next_out) k (first, second) =
    let same = ap (λ (r : Regs). r.rip) k.regs_kept in
    (
      ap (λ a. bit_and (w'.prot a) exec_right) same
          ∙ ap (λ n. bit_and n exec_right) (k.prot_kept w.regs.rip (out, tt))
          ∙ first,
      ap (λ a. bit_and (w'.prot (a + 1)) exec_right) same
          ∙ ap (λ n. bit_and n exec_right) (k.prot_kept (w.regs.rip + 1) (next_out, tt))
          ∙ second,
    )
