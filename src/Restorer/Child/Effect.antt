-- ===== src/Restorer/Child/Effect.antt =====
-- What one entry of the table does to the descriptors of the child.
use mathlib.Core.Path.{subst}
use ksnap.Base.{
  ℕ, ◌≡◌, ◌≢◌, ap, sym, ◌∙◌, ◌⊎◌, inl, inr, false, some, List, [], ◌∷◌, All, arith, ok, >>=-eq-ok,
  Bool-cases, ok-injective,
}
use ksnap.Base.Int.{ℤ, minus_one, ◌<ℤ◌, eqb_ℤ, eqb_ℤ_iff}
use ksnap.Base.Text.{Bytes}
use ksnap.Format.{FdDescriptor}
use ksnap.Restorer.FdTable.Spec.{Numbered, IsFdEntry}
use ksnap.Restorer.Child.Sought.{IsWanted, or_exit-eq-ok, Sought, seek_opened-Sought}
use ksnap.Restorer.Child.{
  Table, Files, IsFiles, ChildError, not_duplicated, not_reopened, not_moved, or_exit, path_of,
  without_cloexec, seek_opened, move_opened, open_file, open_entry,
}

-- A descriptor stands for its own file, or shares that of a lower one.
abbrev pub Placed : Bytes → Table → FdDescriptor → Type 0
Placed pool v e =
    ((e.dup_of ≡ minus_one) × (id : ℕ) × (v.at e.fd ≡ some id) × IsWanted pool e (v.file id))
    ⊎ ((e.dup_of <ℤ e.fd) × (id : ℕ) × (v.at e.fd ≡ some id) × (v.at e.dup_of ≡ some id))

-- What one entry does to the table: its own number apart, descriptors and the files behind them
-- are kept.
pub record Effect (pool : Bytes) (e : FdDescriptor) (v v' : Table) : Type 0 where
  pub others : (m : ℤ) → m ≢ e.fd → v'.at m ≡ v.at m
  pub files_kept : (m : ℤ) (j : ℕ) → v.at m ≡ some j → v'.file j ≡ v.file j
  pub placed : Placed pool v' e

lt_irrefl : (a : ℤ) → ¬ (a <ℤ a)
lt_irrefl a h = omega arith

pub lt_ne : (a b : ℤ) → a <ℤ b → a ≢ b
lt_ne a b h same = lt_irrefl b (subst (λ c. c <ℤ b) same h)

Numbered-lt :
    (key bound : ℤ) (earlier : List FdDescriptor)
    → All (λ (x : FdDescriptor). x.fd <ℤ bound) earlier
    → Numbered key earlier
    → key <ℤ bound
Numbered-lt key bound [] all numbered = absurd numbered
Numbered-lt key bound (x ∷ earlier) (below, all) (inl is) = rw (← is) below
Numbered-lt key bound (x ∷ earlier) (below, all) (inr later) =
    Numbered-lt key bound earlier all later

differs : (a b : ℤ) → eqb_ℤ a b ≡ false → a ≢ b
differs a b is_not same = ground (arith, is_not, (eqb_ℤ_iff a b).1 same)

-- An entry that shares a file shares that of a lower descriptor.
shared_below :
    (pool : Bytes) (earlier : List FdDescriptor) (e : FdDescriptor)
    → IsFdEntry pool earlier e
    → e.dup_of ≢ minus_one
    → e.dup_of <ℤ e.fd
shared_below pool earlier e valid shares = elim valid.shares [
  | inl own ↦ absurd (shares own)
  | inr numbered ↦ Numbered-lt e.dup_of e.fd earlier valid.ascending numbered
]

module _ (k : Files) (table : k.State → Table) (laws : IsFiles k table) where
  Sought-Effect :
      (pool : Bytes) (e : FdDescriptor) (n : ℤ) (s s2 s3 : k.State)
      → e.dup_of ≡ minus_one
      → n ≢ e.fd
      → Sought k table laws pool e n s s2
      → k.dup2 n e.fd s2 ≡ some s3
      → Effect pool e (table s) (table (k.close n s3))
  Sought-Effect pool e n s s2 s3 own other g shares = record {
    others = λ m away. elim (Bool-cases (eqb_ℤ m n)) [
      | inl is ↦
          let same = (eqb_ℤ_iff m n).0 is in
          ap (table (k.close n s3)).at same
          ∙ laws.close_frees n s3
          ∙ sym g.was_free
          ∙ ap (table s).at (sym same)
      | inr is_not ↦
          let differ : m ≢ n = λ same. differs m n is_not same in
          laws.close_others n s3 m differ
          ∙ laws.dup2_others n e.fd s2 shares m away
          ∙ g.others m differ
    ];
    files_kept = λ m j held.
        laws.close_files n s3 j ∙ laws.dup2_files n e.fd s2 shares j ∙ g.files_kept m j held;
    placed = inl (
      own,
      g.id,
      laws.close_others n s3 e.fd (λ same. other (sym same))
          ∙ laws.dup2_shares n e.fd s2 shares
          ∙ g.stands_for,
      subst (IsWanted pool e)
          (sym (laws.close_files n s3 g.id ∙ laws.dup2_files n e.fd s2 shares g.id)) g.wanted,
    );
  }

  in_place-Effect :
      (pool : Bytes) (e : FdDescriptor) (n : ℤ) (s s2 : k.State)
      → e.dup_of ≡ minus_one
      → n ≡ e.fd
      → Sought k table laws pool e n s s2
      → Effect pool e (table s) (table s2)
  in_place-Effect pool e n s s2 own same g = record {
    others = λ m away. g.others m (λ is. away (is ∙ same));
    files_kept = g.files_kept;
    placed = inl (own, g.id, ap (table s2).at (sym same) ∙ g.stands_for, g.wanted);
  }

  move_opened-Effect :
      (pool : Bytes) (e : FdDescriptor) (n : ℤ) (s s2 : k.State) {s' : k.State}
      → e.dup_of ≡ minus_one
      → Sought k table laws pool e n s s2
      → move_opened k e n s2 ≡ ok s'
      → Effect pool e (table s) (table s')
  unfolding move_opened
  move_opened-Effect pool e n s s2 {s'} own g h = elim (Bool-cases (eqb_ℤ n e.fd)) [
    | inl is ↦
        let stays : s2 ≡ s' = ok-injective {E = ChildError} (ground (arith, h)) in
        subst (λ u. Effect pool e (table s) (table u)) stays
          (in_place-Effect pool e n s s2 own ((eqb_ℤ_iff n e.fd).0 is) g)
    | inr is_not ↦
        let (s3, h1, k1) =
          >>=-eq-ok (or_exit not_moved (k.dup2 n e.fd s2)) (λ u. ok (k.close n u)) {out = s'}
            (ground (arith, h)) in
        subst (λ u. Effect pool e (table s) (table u)) (ok-injective k1)
          (Sought-Effect pool e n s s2 s3 own (differs n e.fd is_not) g
            (or_exit-eq-ok not_moved (k.dup2 n e.fd s2) h1))
  ]

  open_file-Effect :
      (pool : Bytes) (e : FdDescriptor) (s : k.State) {s' : k.State}
      → e.dup_of ≡ minus_one
      → open_file k pool e s ≡ ok s'
      → Effect pool e (table s) (table s')
  unfolding open_file
  open_file-Effect pool e s own h =
      let call = k.open_path (path_of pool e) (without_cloexec e.flags) s in
      let ((n, s1), h1, k1) = >>=-eq-ok (or_exit not_reopened call) _ h in
      let (s2, h2, k2) = >>=-eq-ok (seek_opened k e n s1) _ k1 in
      let opened =
        laws.open_opens (path_of pool e) (without_cloexec e.flags) s
          (or_exit-eq-ok not_reopened call h1) in
      move_opened-Effect pool e n s s2 own (seek_opened-Sought k table laws pool e n s s1 opened h2)
        k2

  dup-Effect :
      (pool : Bytes) (e : FdDescriptor) (s : k.State) {s' : k.State}
      → e.dup_of <ℤ e.fd
      → k.dup2 e.dup_of e.fd s ≡ some s'
      → Effect pool e (table s) (table s')
  dup-Effect pool e s below shares =
      let (id, held) = laws.dup2_open e.dup_of e.fd s shares in
      record {
        others = laws.dup2_others e.dup_of e.fd s shares;
        files_kept = λ m j _. laws.dup2_files e.dup_of e.fd s shares j;
        placed = inr (
          below,
          id,
          laws.dup2_shares e.dup_of e.fd s shares ∙ held,
          laws.dup2_others e.dup_of e.fd s shares e.dup_of (lt_ne e.dup_of e.fd below) ∙ held,
        );
      }

  pub open_entry-Effect :
      (pool : Bytes) (earlier : List FdDescriptor) (e : FdDescriptor) (s : k.State) {s' : k.State}
      → IsFdEntry pool earlier e
      → open_entry k pool e s ≡ ok s'
      → Effect pool e (table s) (table s')
  unfolding open_entry
  open_entry-Effect pool earlier e s {s'} valid h = elim (Bool-cases (eqb_ℤ e.dup_of minus_one)) [
    | inl is ↦
        open_file-Effect pool e s {s' = s'} ((eqb_ℤ_iff e.dup_of minus_one).0 is)
          (ground (arith, h))
    | inr is_not ↦
        dup-Effect pool e s (shared_below pool earlier e valid (differs e.dup_of minus_one is_not))
          (or_exit-eq-ok not_duplicated (k.dup2 e.dup_of e.fd s) (ground (arith, h)))
  ]
