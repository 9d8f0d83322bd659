-- ===== src/Tests/Machine.antt =====
-- A small kernel for the calls of the restore: one process, whose memory and protections follow the
-- system calls that it runs.
use Prim.Native.Nat.{bit_and}
use mathlib.Core.Option.{some-injective}
use mathlib.Core.Path.{subst}
use ksnap.Base.{
  Option-cases, Bool-cases, sym, ◌∙◌, ℕ, zero, suc, ◌+◌, ◌/◌, ◌<◌, ◌≡◌, refl, ap, inl, inr, Bool,
  true, false, ◌&&◌, Option, none, some, List, [], ◌∷◌, length, All, arith, leb, ltb, ◌==◌,
  if◌then◌else◌,
}
use ksnap.Base.Text.{Bytes}
use ksnap.Format.Words.{to_le, of_le}
use ksnap.Dumper.Payload.{read_memory}
use ksnap.Restorer.Process.{
  Regs, View, Tracer, IsTracer, IsUndisturbed, HasRun, exec_right, overlay, page_up, InPages,
  Reprotected, sys_mmap, sys_mprotect,
}

pub record Machine : Type 0 where
  pub regs : Regs
  pub byte : ℕ → ℕ
  pub small : (x : ℕ) → byte x < 256
  pub prot : ℕ → ℕ
  pub xstate : Bytes

abbrev pub view : Machine → View
view m = record { regs = m.regs; byte = m.byte; prot = m.prot; xstate = m.xstate }

pub to_le-AreSmall : (k w : ℕ) → All (λ b. b < 256) (to_le k w)
unfolding to_le
to_le-AreSmall zero w = tt
to_le-AreSmall (suc k) w = (omega arith, to_le-AreSmall k (w / 256))

pub overlay-small :
    (a : ℕ) (bs : Bytes) (f : ℕ → ℕ)
    → All (λ b. b < 256) bs
    → ((x : ℕ) → f x < 256)
    → (x : ℕ) → overlay a bs f x < 256
overlay-small a [] f all small x = small x
overlay-small a (b ∷ bs) f (here, all) small x =
    ground (arith, here, overlay-small (a + 1) bs f all small x)

abbrev in_pages : ℕ → ℕ → ℕ → Bool
in_pages start size x = leb start x && ltb x (start + page_up size)

abbrev zeroed : ℕ → ℕ → (ℕ → ℕ) → ℕ → ℕ
zeroed start size byte x = if in_pages start size x then 0 else byte x

pub zeroed-small :
    (start size : ℕ) (f : ℕ → ℕ) → ((x : ℕ) → f x < 256) → (x : ℕ) → zeroed start size f x < 256
zeroed-small start size f small x = ground (arith, small x)

pub is_small : (b : ℕ) → ltb b 256 ≡ true → b < 256
is_small b h = ground (arith, h)

-- Whether all bytes are bytes.
unfoldable pub small_bytes : (bs : Bytes) → Option (All (λ b. b < 256) bs)
small_bytes [] = some tt
small_bytes (b ∷ bs) = elim (small_bytes bs) [
  | none ↦ none
  | some rest ↦ by_test (ltb b 256) rest refl
]
  where
    by_test :
        (t : Bool) → All (λ c. c < 256) bs → ltb b 256 ≡ t → Option (All (λ c. c < 256) (b ∷ bs))
    by_test true rest is = some (is_small b is, rest)
    by_test false rest is = none

abbrev reprotect : ℕ → ℕ → ℕ → (ℕ → ℕ) → ℕ → ℕ
reprotect start size p prot x = if in_pages start size x then p else prot x

abbrev with_result : ℕ → Regs → Regs
with_result n r = record r { rax = n; rip = r.rip + 2 }

abbrev run_mmap : Machine → Machine
run_mmap m = record {
  regs = with_result m.regs.rdi m.regs;
  byte = zeroed m.regs.rdi m.regs.rsi m.byte;
  small = zeroed-small m.regs.rdi m.regs.rsi m.byte m.small;
  prot = reprotect m.regs.rdi m.regs.rsi m.regs.rdx m.prot;
  xstate = m.xstate;
}

abbrev run_mprotect : Machine → Machine
run_mprotect m = record m {
  regs = with_result 0 m.regs;
  prot = reprotect m.regs.rdi m.regs.rsi m.regs.rdx m.prot;
}

abbrev run_other : Machine → Machine
run_other m = record m { regs = with_result 0 m.regs }

-- Whether both bytes of the instruction may be executed.
abbrev executable : Machine → Bool
executable m =
    bit_and (m.prot m.regs.rip) exec_right == exec_right
    && bit_and (m.prot (m.regs.rip + 1)) exec_right == exec_right

abbrev pub run : Machine → Machine
run m =
    if m.regs.rax == sys_mmap
    then run_mmap m
    else (if m.regs.rax == sys_mprotect then run_mprotect m else run_other m)

-- On a page that may not be executed, a step does nothing.
abbrev pub step : Machine → Machine
step m = if executable m then run m else m

abbrev write : ℕ → (bs : Bytes) → All (λ b. b < 256) bs → Machine → Machine
write a bs all m = record m {
  byte = overlay a bs m.byte;
  small = overlay-small a bs m.byte all m.small;
}

abbrev pwrite : Bytes → ℕ → Machine → Option (ℕ × Machine)
pwrite bs a m = elim (small_bytes bs) [
  | none ↦ none
  | some all ↦ some (length bs, write a bs all m)
]

abbrev pub machine : List Bytes → Tracer
machine lines = record {
  State = Machine;
  getregs = λ m. some m.regs;
  setregs = λ r m. some (record m { regs = r });
  setxstate = λ x m. some (record m { xstate = x });
  peektext = λ a m. some (of_le (read_memory m.byte a 8));
  poketext = λ a w m. some (write a (to_le 8 w) (to_le-AreSmall 8 w) m);
  singlestep = λ m. some (step m);
  wait = λ m. some m;
  pwrite = pwrite;
  maps = λ m. some lines;
}

pub machine-pokes :
    (lines : List Bytes) (a w : ℕ) (m : Machine)
    → (m' : Machine) × ((machine lines).poketext a w m ≡ some m')
machine-pokes lines a w m = (write a (to_le 8 w) (to_le-AreSmall 8 w) m, refl)

mmap_keeps :
    (m : Machine)
    → m.regs.rax ≡ sys_mmap
    → (x : ℕ) → ¬ InPages m.regs.rdi m.regs.rsi x
    → (step m).byte x ≡ m.byte x
mmap_keeps m number x out = ground (arith, number, out)

mprotect_keeps : (m : Machine) → m.regs.rax ≡ sys_mprotect → (x : ℕ) → (step m).byte x ≡ m.byte x
mprotect_keeps m number x = ground (arith, number)

reprotect-Reprotected :
    (start size p : ℕ) (v v' : View)
    → ((x : ℕ) → v'.prot x ≡ reprotect start size p v.prot x)
    → Reprotected v v' start size p
reprotect-Reprotected start size p v v' is = record {
  inside = λ x (low, high). ground (arith, is x);
  outside = λ x out. ground (arith, is x, out);
}

ran_executable : (m : Machine) → HasRun (view m) (view (step m)) → executable m ≡ true
ran_executable m ran = elim (Bool-cases (executable m)) [
  | inl runs ↦ runs
  | inr stuck ↦ absurd (ground (arith, stuck, ran))
]

executable-step : (m : Machine) → executable m ≡ true → HasRun (view m) (view (step m))
executable-step m runs = ground (arith, runs)

pub machine-quiet : (lines : List Bytes) → IsUndisturbed (machine lines) view
machine-quiet lines m m' h at (first, second) =
    subst (λ u. HasRun (view m) (view u)) (some-injective (step m) m' h)
      (executable-step m (ground (arith, first, second)))

mmap_protects :
    (m : Machine)
    → m.regs.rax ≡ sys_mmap
    → HasRun (view m) (view (step m))
    → Reprotected (view m) (view (step m)) m.regs.rdi m.regs.rsi m.regs.rdx
mmap_protects m number ran =
    let runs = ran_executable m ran in
    reprotect-Reprotected m.regs.rdi m.regs.rsi m.regs.rdx (view m) (view (step m))
      (λ x. ground (arith, number, runs))

mprotect_protects :
    (m : Machine)
    → m.regs.rax ≡ sys_mprotect
    → HasRun (view m) (view (step m))
    → Reprotected (view m) (view (step m)) m.regs.rdi m.regs.rsi m.regs.rdx
mprotect_protects m number ran =
    let runs = ran_executable m ran in
    reprotect-Reprotected m.regs.rdi m.regs.rsi m.regs.rdx (view m) (view (step m))
      (λ x. ground (arith, number, runs))

pwrite_writes :
    (bs : Bytes) (a : ℕ) (m : Machine) {m' : Machine}
    → pwrite bs a m ≡ some (length bs, m')
    → view m' ≡ record (view m) { byte = overlay a bs m.byte }
pwrite_writes bs a m {m'} h = elim (Option-cases (small_bytes bs)) [
  | inl not_bytes ↦ absurd (ground (arith, not_bytes))
  | inr (all, are_bytes) ↦
      let is : write a bs all m ≡ m' = ground (arith, are_bytes) in ap view (sym is)
]

pub machine-IsTracer : (lines : List Bytes) → IsTracer (machine lines) view
machine-IsTracer lines = record {
  getregs_gives = λ m h. sym (some-injective _ _ h);
  setregs_sets = λ r m h. ap view (sym (some-injective _ _ h));
  setxstate_sets = λ x m h. ap view (sym (some-injective _ _ h));
  peektext_gives = λ a m h. sym (some-injective _ _ h);
  poketext_writes = λ a w m h. ap view (sym (some-injective _ _ h));
  pwrite_writes = pwrite_writes;
  wait_keeps = λ m h. ap view (sym (some-injective _ _ h));
  is_byte = λ m. m.small;
  mmap_keeps = λ m h _ number _ _ x out.
      ap (λ u. u.byte x) (sym (some-injective (step m) _ h)) ∙ mmap_keeps m number x out;
  mmap_protects = λ m h _ number _ ran _.
      let same = some-injective (step m) _ h in
      subst (λ u. Reprotected (view m) (view u) m.regs.rdi m.regs.rsi m.regs.rdx) same
        (mmap_protects m number (subst (λ u. HasRun (view m) (view u)) (sym same) ran));
  mprotect_keeps = λ m h _ number x.
      ap (λ u. u.byte x) (sym (some-injective (step m) _ h)) ∙ mprotect_keeps m number x;
  mprotect_protects = λ m h _ number ran _.
      let same = some-injective (step m) _ h in
      subst (λ u. Reprotected (view m) (view u) m.regs.rdi m.regs.rsi m.regs.rdx) same
        (mprotect_protects m number (subst (λ u. HasRun (view m) (view u)) (sym same) ran));
}
