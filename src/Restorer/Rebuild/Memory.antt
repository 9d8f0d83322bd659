-- ===== src/Restorer/Rebuild/Memory.antt =====
-- The loop of `restorer` over the mappings: what the process holds behind it.
use Prim.Native.Nat.{bit_and}
use mathlib.Core.Path.{subst}
use ksnap.Base.{
  ℕ, ◌+◌, ◌≤◌, ◌≡◌, refl, ap, sym, ◌∙◌, ◌⊎◌, inl, inr, false, not, some, List, [], ◌∷◌, ◌++◌,
  length, take, drop, take-append, All, arith, ok, >>=-eq-ok, guard->>-eq-ok, ok-injective,
  not-eq-true, Bool-cases, leb, ltb,
}
use ksnap.Base.Text.{Bytes}
use ksnap.Format.{VmaDescriptor}
use ksnap.Dumper.Payload.{read_memory}
use ksnap.Dumper.Payload.Copy.{InAddressSpace}
use ksnap.Restorer.{seek}
use ksnap.Restorer.Process.{
  Regs, View, Tracer, IsTracer, InPages, page_up, syscall_failed, overlay, exec_right, IsExecutable,
  IsUndisturbed,
}
use ksnap.Restorer.Process.Memory.{overlay-outside, read_memory-ext, read_memory-overlay}
use ksnap.Restorer.Inject.Calls.{or_error-eq-ok}
use ksnap.Restorer.Inject.{
  mmap_failed, no_payload, or_error, work_regs, mmap_call, inject_syscall, inject_mmap_syscall,
}
use ksnap.Restorer.Inject.Transparent.{Ran, Ran-byte, Ran-HasRun, inject_syscall-Ran}
use ksnap.Restorer.Rebuild.{rwx, restore_vma, restore_vmas}
use ksnap.Restorer.Rebuild.Payload.{Written, write_chunks-Written}

-- An address in the pages of a mapping.
abbrev pub In : VmaDescriptor → ℕ → Type 0
In v x = InPages v.start_address v.size x

-- Two mappings that share no page.
abbrev pub Apart : VmaDescriptor → VmaDescriptor → Type 0
Apart v w =
    (v.start_address + page_up v.size ≤ w.start_address)
    ⊎ (w.start_address + page_up w.size ≤ v.start_address)

abbrev pub AreApart : List VmaDescriptor → Type 0
AreApart [] = Unit
AreApart (v ∷ vmas) = All (Apart v) vmas × AreApart vmas

-- A mapping that holds its payload, under all three rights.
abbrev pub Restored : Bytes → View → VmaDescriptor → Type 0
Restored file w v =
    (read_memory w.byte v.start_address v.size ≡ take v.size (drop v.data_offset file))
    × ((x : ℕ) → In v x → w.prot x ≡ rwx)

-- Two views that agree but on the pages of these mappings.
pub record KeptBut (vmas : List VmaDescriptor) (w w' : View) : Type 0 where
  pub regs_kept : w'.regs ≡ w.regs
  pub bytes_kept : (x : ℕ) → All (λ v. ¬ In v x) vmas → w'.byte x ≡ w.byte x
  pub prot_kept : (x : ℕ) → All (λ v. ¬ In v x) vmas → w'.prot x ≡ w.prot x

pub Apart-In : (v w : VmaDescriptor) (x : ℕ) → Apart v w → In v x → ¬ In w x
Apart-In v w x (inl before) (low, high) (low', high') = omega arith
Apart-In v w x (inr behind) (low, high) (low', high') = omega arith

pub All-Apart-In :
    (v : VmaDescriptor) (vmas : List VmaDescriptor) (x : ℕ)
    → All (Apart v) vmas
    → In v x
    → All (λ w. ¬ In w x) vmas
All-Apart-In v [] x h inside = tt
All-Apart-In v (w ∷ vmas) x (h, hs) inside =
    (Apart-In v w x h inside, All-Apart-In v vmas x hs inside)

-- What lies in none of the mappings that follow stays restored.
Restored-KeptBut :
    (file : Bytes) (v : VmaDescriptor) (vmas : List VmaDescriptor) (w w' : View)
    → All (Apart v) vmas
    → KeptBut vmas w w'
    → Restored file w v
    → Restored file w' v
Restored-KeptBut file v vmas w w' apart kept (bytes, prot) = (
  read_memory-ext w'.byte w.byte v.start_address v.size
        (λ x low high. kept.bytes_kept x (All-Apart-In v vmas x apart (low, omega arith)))
      ∙ bytes,
  λ x inside. kept.prot_kept x (All-Apart-In v vmas x apart inside) ∙ prot x inside,
)

KeptBut-refl : (w : View) → KeptBut [] w w
KeptBut-refl w = record { regs_kept = refl; bytes_kept = λ x _. refl; prot_kept = λ x _. refl }

KeptBut-KeptBut :
    (v : VmaDescriptor) (vmas : List VmaDescriptor) {w w1 w2 : View}
    → KeptBut (v ∷ []) w w1
    → KeptBut vmas w1 w2
    → KeptBut (v ∷ vmas) w w2
KeptBut-KeptBut v vmas k1 k2 = record {
  regs_kept = k2.regs_kept ∙ k1.regs_kept;
  bytes_kept = λ x (out, outs). k2.bytes_kept x outs ∙ k1.bytes_kept x (out, tt);
  prot_kept = λ x (out, outs). k2.prot_kept x outs ∙ k1.prot_kept x (out, tt);
}

In-cases : (v : VmaDescriptor) (x : ℕ) → In v x ⊎ ¬ In v x
In-cases v x = elim (Bool-cases (leb v.start_address x)) [
  | inl low ↦ elim (Bool-cases (ltb x (v.start_address + page_up v.size))) [
    | inl high ↦ inl (ground (arith, low), ground (arith, high))
    | inr above ↦ inr (λ (l, h). ground (arith, above, h))
  ]
  | inr below ↦ inr (λ (l, h). ground (arith, below, l))
]

-- The instruction may be executed behind the restoring of a mapping if it could before: a page that
-- is mapped anew has all three rights.
Restored-IsExecutable :
    (file : Bytes) (v : VmaDescriptor) (w w' : View)
    → Restored file w' v
    → KeptBut (v ∷ []) w w'
    → IsExecutable w
    → IsExecutable w'
Restored-IsExecutable file v w w' (_, rights) kept (first, second) =
    let same = ap (λ (r : Regs). r.rip) kept.regs_kept in
    (
      ap (λ a. bit_and (w'.prot a) exec_right) same ∙ still w.regs.rip first,
      ap (λ a. bit_and (w'.prot (a + 1)) exec_right) same ∙ still (w.regs.rip + 1) second,
    )
  where
    still :
        (x : ℕ)
        → bit_and (w.prot x) exec_right ≡ exec_right
        → bit_and (w'.prot x) exec_right ≡ exec_right
    still x h = elim (In-cases v x) [
      | inl inside ↦ ap (λ n. bit_and n exec_right) (rights x inside)
      | inr outside ↦ ap (λ n. bit_and n exec_right) (kept.prot_kept x (outside, tt)) ∙ h
    ]

seek-eq-some :
    (file : Bytes) (offset : ℕ) {rest : Bytes}
    → seek file offset ≡ some rest
    → rest ≡ drop offset file
seek-eq-some file offset h = ground arith

module _ (t : Tracer) (view : t.State → View) (laws : IsTracer t view)
    (pokes : (a w : ℕ) (s : t.State) → (s' : t.State) × (t.poketext a w s ≡ some s'))
    (quiet : IsUndisturbed t view) where
  -- The pages of a new mapping have all three rights, and all else is kept.
  record Mapped (v : VmaDescriptor) (s s' : t.State) : Type 0 where
    pub kept : KeptBut (v ∷ []) (view s) (view s')
    pub has_rights : (x : ℕ) → In v x → (view s').prot x ≡ rwx

  Ran-Mapped :
      (v : VmaDescriptor) (s : t.State) {result : ℕ} {s' : t.State}
      → IsExecutable (view s)
      → Ran t view (mmap_call v) s s' result
      → syscall_failed result ≡ false
      → Mapped v s s'
  unfolding work_regs
  Ran-Mapped v s {result} {s'} runs r works =
      let start = ap (λ u. u.rdi) r.regs_in in
      let long = ap (λ u. u.rsi) r.regs_in in
      let number = ap (λ u. u.rax) r.regs_in in
      let fixed = ap (λ u. u.r10) r.regs_in in
      let done = ap syscall_failed (sym r.result_is) ∙ works in
      let changed =
        laws.mmap_protects r.from r.stepped r.at_syscall number fixed
          (Ran-HasRun t view (mmap_call v) s s' quiet runs r) done in
      record {
        kept = record {
          regs_kept = r.regs_out;
          bytes_kept = λ x (out, _). Ran-byte t view (mmap_call v) s s' r x (
              laws.mmap_keeps r.from r.stepped r.at_syscall number fixed done x
                (rw (start, long) out));
          prot_kept =
              λ x (out, _). r.prot_out x ∙ changed.outside x (rw (start, long) out) ∙ r.prot_in x;
        };
        has_rights = λ x inside.
            r.prot_out x ∙ changed.inside x (rw (start, long) inside) ∙ ap (λ u. u.rdx) r.regs_in;
      }

  inject_mmap_syscall-Mapped :
      (v : VmaDescriptor) (s : t.State) {s' : t.State}
      → IsExecutable (view s)
      → inject_mmap_syscall t v s ≡ ok s'
      → Mapped v s s'
  unfolding inject_mmap_syscall
  inject_mmap_syscall-Mapped v s {s'} runs h =
      let ((result, mid), h1, k1) = >>=-eq-ok (inject_syscall t (mmap_call v) s) _ h in
      let (works, same) = guard->>-eq-ok (not (syscall_failed result)) mmap_failed _ k1 in
      subst (Mapped v s) (ok-injective same) (
        Ran-Mapped v s runs (inject_syscall-Ran t view laws pokes (mmap_call v) s h1)
          (not-eq-true works))

  Written-Restored :
      (file rest : Bytes) (v : VmaDescriptor) (s s1 s' : t.State)
      → seek file v.data_offset ≡ some rest
      → Mapped v s s1
      → Written t view laws v 0 rest s1 s'
      → Restored file (view s') v × KeptBut (v ∷ []) (view s) (view s')
  Written-Restored file rest v s s1 s' found m w =
      let bytes : (x : ℕ) → (view s').byte x ≡ overlay v.start_address w.payload (view s1).byte x =
        λ x. w.bytes x ∙ ap (λ a. overlay a w.payload (view s1).byte x) (omega arith) in
      let long : length w.payload ≡ v.size = w.full ∙ omega arith in
      (
        (
          read_memory-ext (view s').byte (overlay v.start_address w.payload (view s1).byte)
                v.start_address v.size (λ x _ _. bytes x)
              ∙ ap (read_memory (overlay v.start_address w.payload (view s1).byte) v.start_address)
                  (sym long)
              ∙ read_memory-overlay v.start_address w.payload (view s1).byte
              ∙ sym (take-append w.payload w.behind)
              ∙ ap (λ n. take n (w.payload ++ w.behind)) long
              ∙ ap (take v.size) (sym w.split ∙ seek-eq-some file v.data_offset found),
          λ x inside. w.prot_kept x ∙ m.has_rights x inside,
        ),
        record {
          regs_kept = w.regs_kept ∙ m.kept.regs_kept;
          bytes_kept = λ x (out, _).
              bytes x
              ∙ overlay-outside v.start_address (page_up v.size) w.payload (view s1).byte x
                  (omega (arith, long)) out
              ∙ m.kept.bytes_kept x (out, tt);
          prot_kept = λ x (out, _). w.prot_kept x ∙ m.kept.prot_kept x (out, tt);
        },
      )

  restore_vma-Restored :
      (file : Bytes) (v : VmaDescriptor) (s : t.State) {s' : t.State}
      → InAddressSpace v
      → IsExecutable (view s)
      → restore_vma t file v s ≡ ok s'
      → Restored file (view s') v × KeptBut (v ∷ []) (view s) (view s')
  unfolding restore_vma
  restore_vma-Restored file v s {s'} space runs h =
      let (s1, h1, k1) = >>=-eq-ok (inject_mmap_syscall t v s) _ h in
      let (rest, h2, k2) = >>=-eq-ok (or_error no_payload (seek file v.data_offset)) _ k1 in
      Written-Restored file rest v s s1 s' (or_error-eq-ok no_payload (seek file v.data_offset) h2)
        (inject_mmap_syscall-Mapped v s runs h1)
        (write_chunks-Written t view laws v v.size 0 rest s1 space (omega arith) k2)

  -- Under the documented laws of the kernel, where every PTRACE_POKETEXT succeeds, no signal ends a
  -- step, the instruction at the instruction pointer may be executed, and the mappings share no page
  -- and end in the address space, the loop of restorer over the mappings, if it succeeds, leaves each
  -- of them with its payload from the snapshot in memory and with all three rights; the registers,
  -- and what lies in none of them, are as before, and the instruction may still be executed.
  pub restore_vmas-Restored :
      (file : Bytes) (vmas : List VmaDescriptor) (s : t.State) {s' : t.State}
      → All InAddressSpace vmas
      → AreApart vmas
      → IsExecutable (view s)
      → restore_vmas t file vmas s ≡ ok s'
      → All (Restored file (view s')) vmas
        × KeptBut vmas (view s) (view s')
        × IsExecutable (view s')
  unfolding restore_vmas
  restore_vmas-Restored file [] s {s'} spaces apart runs h = (
    tt,
    subst (λ u. KeptBut [] (view s) (view u)) {x = s} {y = s'} (ok-injective h)
        (KeptBut-refl (view s)),
    subst (λ u. IsExecutable (view u)) {x = s} {y = s'} (ok-injective h) runs,
  )
  restore_vmas-Restored file (v ∷ vmas) s {s'} (space, spaces) (apart, aparts) runs h =
      let (s1, h1, k1) = >>=-eq-ok (restore_vma t file v s) _ h in
      let (here, kept) = restore_vma-Restored file v s space runs h1 in
      let runs1 = Restored-IsExecutable file v (view s) (view s1) here kept runs in
      let (others, kept', runs') = restore_vmas-Restored file vmas s1 spaces aparts runs1 k1 in
      (
        (Restored-KeptBut file v vmas (view s1) (view s') apart kept' here, others),
        KeptBut-KeptBut v vmas kept kept',
        runs',
      )
