-- ===== src/Tests/Desk.antt =====
-- A small kernel for the descriptors of the child: `open` takes the lowest free number below 16.
use mathlib.Core.Option.{some-injective}
use mathlib.Core.Path.{subst}
use ksnap.Base.{
  ℕ, zero, suc, ◌+◌, ◌<◌, ◌≡◌, ◌≢◌, refl, ap, sym, ◌∙◌, inl, inr, Option, none, some, arith,
  if◌then◌else◌, Bool-cases, Option-cases,
}
use ksnap.Base.Int.{ℤ, pos, ◌≤ℤ◌, leb_ℤ, eqb_ℤ, eqb_ℤ_iff}
use ksnap.Base.Text.{Bytes}
use ksnap.Restorer.Child.{OpenFile, Table, Files, Opened, IsFiles}

pub record Desk : Type 0 where
  pub table : Table
  pub next : ℕ
  pub old : (m : ℤ) (j : ℕ) → table.at m ≡ some j → j < next

abbrev pub table : Desk → Table
table d = d.table

abbrev put : ℤ → Option ℕ → (ℤ → Option ℕ) → ℤ → Option ℕ
put n o at m = if eqb_ℤ m n then o else at m

put-same : (n : ℤ) (o : Option ℕ) (at : ℤ → Option ℕ) → put n o at n ≡ o
put-same n o at = ground (arith, (eqb_ℤ_iff n n).1 refl)

put-other : (n : ℤ) (o : Option ℕ) (at : ℤ → Option ℕ) (m : ℤ) → m ≢ n → put n o at m ≡ at m
put-other n o at m away = elim (Bool-cases (eqb_ℤ m n)) [
  | inl is ↦ absurd (away ((eqb_ℤ_iff m n).0 is))
  | inr is_not ↦ ground (arith, is_not)
]

pub put-old :
    (n : ℤ) (o : Option ℕ) (at : ℤ → Option ℕ) (next : ℕ)
    → ((j : ℕ) → o ≡ some j → j < next)
    → ((m : ℤ) (j : ℕ) → at m ≡ some j → j < next)
    → (m : ℤ) (j : ℕ) → put n o at m ≡ some j
    → j < next
put-old n o at next new old m j held = elim (Bool-cases (eqb_ℤ m n)) [
  | inl is ↦ new j (ground (arith, is, held))
  | inr is_not ↦ old m j (ground (arith, is_not, held))
]

abbrev above : (ℤ → Option ℕ) → ℤ → Option ℕ
above at m = if leb_ℤ (pos 3) m then none else at m

pub above-old :
    (at : ℤ → Option ℕ) (next : ℕ)
    → ((m : ℤ) (j : ℕ) → at m ≡ some j → j < next)
    → (m : ℤ) (j : ℕ) → above at m ≡ some j
    → j < next
above-old at next old m j held = elim (Bool-cases (leb_ℤ (pos 3) m)) [
  | inl is ↦ absurd (ground (arith, is, held))
  | inr is_not ↦ old m j (ground (arith, is_not, held))
]

abbrev close_above : Desk → Desk
close_above d = record {
  table = record { at = above d.table.at; file = d.table.file };
  next = d.next;
  old = above-old d.table.at d.next d.old;
}

-- The lowest free number from `n` on.
unfoldable pub find_free : ℕ → ℕ → (at : ℤ → Option ℕ) → Option ((n : ℤ) × (at n ≡ none))
find_free zero n at = none
find_free (suc more) n at = by_answer (find_free more (n + 1) at) (at (pos n)) refl
  where
    by_answer :
        Option ((m : ℤ) × (at m ≡ none))
        → (o : Option ℕ) → at (pos n) ≡ o
        → Option ((m : ℤ) × (at m ≡ none))
    by_answer higher none free = some (pos n, free)
    by_answer higher (some j) held = higher

abbrev put_file : ℕ → OpenFile → (ℕ → OpenFile) → ℕ → OpenFile
put_file id f file j = if eqb_ℤ (pos j) (pos id) then f else file j

put_file-same : (id : ℕ) (f : OpenFile) (file : ℕ → OpenFile) → put_file id f file id ≡ f
put_file-same id f file = ground (arith, (eqb_ℤ_iff (pos id) (pos id)).1 refl)

put_file-other :
    (id : ℕ) (f : OpenFile) (file : ℕ → OpenFile) (j : ℕ) → j ≢ id → put_file id f file j ≡ file j
put_file-other id f file j away = elim (Bool-cases (eqb_ℤ (pos j) (pos id))) [
  | inl is ↦ absurd (away (ground (arith, (eqb_ℤ_iff (pos j) (pos id)).0 is)))
  | inr is_not ↦ ground (arith, is_not)
]

pub open-old :
    (d : Desk) (n m : ℤ) (j : ℕ) → put n (some d.next) d.table.at m ≡ some j → j < suc d.next
open-old d n m j held =
    put-old n (some d.next) d.table.at (suc d.next)
      (λ i is. omega (arith, some-injective d.next i is)) (λ l i h. omega (arith, d.old l i h)) m j
      held

abbrev open_at : Bytes → ℕ → Desk → ℤ → Desk
open_at path flags d n = record {
  table = record {
    at = put n (some d.next) d.table.at;
    file = put_file d.next (record { path = path; flags = flags; position = 0 }) d.table.file;
  };
  next = suc d.next;
  old = open-old d n;
}

abbrev open_path : Bytes → ℕ → Desk → Option (ℤ × Desk)
open_path path flags d = elim (find_free 16 0 d.table.at) [
  | none ↦ none
  | some free ↦ some (free.0, open_at path flags d free.0)
]

abbrev seek_to : ℕ → ℕ → Desk → Desk
seek_to id p d = record {
  table = record {
    at = d.table.at;
    file = put_file id (record (d.table.file id) { position = p }) d.table.file;
  };
  next = d.next;
  old = d.old;
}

abbrev lseek : ℤ → ℕ → Desk → Option Desk
lseek n p d = elim (d.table.at n) [ none ↦ none | some id ↦ some (seek_to id p d) ]

pub dup-old :
    (d : Desk) (old new m : ℤ) (j : ℕ) → put new (d.table.at old) d.table.at m ≡ some j → j < d.next
dup-old d old new m j held =
    put-old new (d.table.at old) d.table.at d.next (d.old old) d.old m j held

abbrev dup_to : ℤ → ℤ → Desk → Desk
dup_to old new d = record {
  table = record { at = put new (d.table.at old) d.table.at; file = d.table.file };
  next = d.next;
  old = dup-old d old new;
}

abbrev dup2 : ℤ → ℤ → Desk → Option Desk
dup2 old new d = elim (d.table.at old) [ none ↦ none | some id ↦ some (dup_to old new d) ]

pub close-old : (d : Desk) (n m : ℤ) (j : ℕ) → put n none d.table.at m ≡ some j → j < d.next
close-old d n m j held =
    put-old n none d.table.at d.next (λ i is. absurd (ground (arith, is))) d.old m j held

abbrev close : ℤ → Desk → Desk
close n d = record {
  table = record { at = put n none d.table.at; file = d.table.file };
  next = d.next;
  old = close-old d n;
}

abbrev pub desk : Files
desk = record {
  State = Desk;
  close_range = λ d. some (close_above d);
  open_path = open_path;
  lseek = lseek;
  dup2 = dup2;
  close = close;
  personality = λ d. d;
  traceme = λ d. d;
  execv = λ path d. some d;
}

open_at-Opened :
    (path : Bytes) (flags : ℕ) (d : Desk) (n : ℤ)
    → d.table.at n ≡ none
    → Opened d.table (open_at path flags d n).table path flags n
open_at-Opened path flags d n free = record {
  id = d.next;
  was_free = free;
  stands_for = put-same n (some d.next) d.table.at;
  fresh = λ m held. omega (arith, d.old m d.next held);
  file_is = put_file-same d.next (record { path = path; flags = flags; position = 0 }) d.table.file;
  others = put-other n (some d.next) d.table.at;
  files_kept =
      put_file-other d.next (record { path = path; flags = flags; position = 0 }) d.table.file;
}

open_path-Opened :
    (path : Bytes) (flags : ℕ) (d : Desk) {n : ℤ} {d' : Desk}
    → open_path path flags d ≡ some (n, d')
    → Opened d.table d'.table path flags n
open_path-Opened path flags d {n} {d'} h = elim (Option-cases (find_free 16 0 d.table.at)) [
  | inl full ↦ absurd (ground (arith, full, h))
  | inr (free, found) ↦
      let is : Path (ℤ × Desk) (free.0, open_at path flags d free.0) (n, d') =
        some-injective (free.0, open_at path flags d free.0) (n, d') (ground (arith, found, h)) in
      subst (λ r. Opened d.table (r.1).table path flags r.0) is
        (open_at-Opened path flags d free.0 free.1)
]

lseek-seek_to :
    (n : ℤ) (p : ℕ) (d : Desk) {d' : Desk}
    → lseek n p d ≡ some d'
    → (id : ℕ) × (d.table.at n ≡ some id) × (seek_to id p d ≡ d')
lseek-seek_to n p d {d'} h = elim (Option-cases (d.table.at n)) [
  | inl closed ↦ absurd (ground (arith, closed, h))
  | inr (id, held) ↦ (id, held, some-injective (seek_to id p d) d' (ground (arith, held, h)))
]

dup2-dup_to :
    (old new : ℤ) (d : Desk) {d' : Desk}
    → dup2 old new d ≡ some d'
    → (id : ℕ) × (d.table.at old ≡ some id) × (dup_to old new d ≡ d')
dup2-dup_to old new d {d'} h = elim (Option-cases (d.table.at old)) [
  | inl closed ↦ absurd (ground (arith, closed, h))
  | inr (id, held) ↦ (id, held, some-injective (dup_to old new d) d' (ground (arith, held, h)))
]

above-none : (at : ℤ → Option ℕ) (n : ℤ) → pos 3 ≤ℤ n → above at n ≡ none
above-none at n h = ground (arith, h)

lseek_moves :
    (n : ℤ) (p : ℕ) (d : Desk) {id : ℕ} {d' : Desk}
    → lseek n p d ≡ some d'
    → d.table.at n ≡ some id
    → d'.table.file id ≡ record (d.table.file id) { position = p }
lseek_moves n p d {id} h held =
    let (i, held', is) = lseek-seek_to n p d h in
    let same : i ≡ id = some-injective i id (sym held' ∙ held) in
    ap (λ u. u.table.file id) (sym is)
    ∙ ap (λ j. put_file j (record (d.table.file j) { position = p }) d.table.file id) same
    ∙ put_file-same id (record (d.table.file id) { position = p }) d.table.file

lseek_keeps :
    (n : ℤ) (p : ℕ) (d : Desk) {id : ℕ} {d' : Desk}
    → lseek n p d ≡ some d'
    → d.table.at n ≡ some id
    → (j : ℕ) → j ≢ id
    → d'.table.file j ≡ d.table.file j
lseek_keeps n p d {id} h held j away =
    let (i, held', is) = lseek-seek_to n p d h in
    let same : i ≡ id = some-injective i id (sym held' ∙ held) in
    ap (λ u. u.table.file j) (sym is)
    ∙ put_file-other i (record (d.table.file i) { position = p }) d.table.file j
        (λ e. away (e ∙ same))

pub desk-IsFiles : IsFiles desk table
desk-IsFiles = record {
  close_range_closes = λ d h n big.
      ap (λ u. u.table.at n) (sym (some-injective (close_above d) _ h))
      ∙ above-none d.table.at n big;
  open_opens = open_path-Opened;
  lseek_at = λ n p d h m. ap (λ u. u.table.at m) (sym (lseek-seek_to n p d h).2);
  lseek_moves = lseek_moves;
  lseek_keeps = lseek_keeps;
  dup2_open = λ old new d h. let (id, held, _) = dup2-dup_to old new d h in (id, held);
  dup2_shares = λ old new d h.
      let (id, held, is) = dup2-dup_to old new d h in
      ap (λ u. u.table.at new) (sym is) ∙ put-same new (d.table.at old) d.table.at;
  dup2_others = λ old new d h m away.
      let (id, held, is) = dup2-dup_to old new d h in
      ap (λ u. u.table.at m) (sym is) ∙ put-other new (d.table.at old) d.table.at m away;
  dup2_files = λ old new d h j. ap (λ u. u.table.file j) (sym (dup2-dup_to old new d h).2);
  close_frees = λ n d. put-same n none d.table.at;
  close_others = λ n d m away. put-other n none d.table.at m away;
  close_files = λ n d j. refl;
}
