-- ===== src/Restorer/Child/Sought.antt =====
-- What the opening and the seek of one entry do to the descriptors of the child.
use Prim.Native.Nat.{bit_and}
use ksnap.Base.{
  ℕ, ◌≡◌, ◌≢◌, refl, ap, ◌∙◌, inl, inr, Option, none, some, arith, ◌==◌, ok, Bool-cases,
  ok-injective,
}
use ksnap.Base.Int.{ℤ}
use ksnap.Base.Text.{Bytes}
use ksnap.Format.{FdDescriptor}
use ksnap.Restorer.Child.{
  o_path, OpenFile, Table, Files, Opened, IsFiles, ChildError, not_sought, or_exit, path_of,
  without_cloexec, seek_opened,
}

-- The file that an entry without an original asks for; an O_PATH descriptor has no position.
pub record IsWanted (pool : Bytes) (e : FdDescriptor) (f : OpenFile) : Type 0 where
  pub path_is : f.path ≡ path_of pool e
  pub flags_are : f.flags ≡ without_cloexec e.flags
  pub position_is : (bit_and e.flags o_path ≡ 0) → f.position ≡ e.position

pub or_exit-eq-ok {ℓ} :
    {A : Type ℓ} (e : ChildError) (o : Option A) {a : A} → or_exit e o ≡ ok a → o ≡ some a
or_exit-eq-ok e none h = cc
or_exit-eq-ok e (some b) h = cc

-- What was open is not what is opened.
fresh_id :
    (v : Table) {id : ℕ} → ((m : ℤ) → v.at m ≢ some id) → (m : ℤ) (j : ℕ) → v.at m ≡ some j → j ≢ id
fresh_id v fresh m j held same = fresh m (held ∙ ap some same)

module _ (k : Files) (table : k.State → Table) (laws : IsFiles k table) where
  -- Behind the opening and the seek: the new descriptor, and all that was there before.
  pub record Sought (pool : Bytes) (e : FdDescriptor) (n : ℤ) (s s' : k.State) : Type 0 where
    pub id : ℕ
    pub was_free : (table s).at n ≡ none
    pub stands_for : (table s').at n ≡ some id
    pub wanted : IsWanted pool e ((table s').file id)
    pub others : (m : ℤ) → m ≢ n → (table s').at m ≡ (table s).at m
    pub files_kept :
        (m : ℤ) (j : ℕ) → (table s).at m ≡ some j → (table s').file j ≡ (table s).file j

  pub seek_opened-Sought :
      (pool : Bytes) (e : FdDescriptor) (n : ℤ) (s s1 : k.State) {s2 : k.State}
      → Opened (table s) (table s1) (path_of pool e) (without_cloexec e.flags) n
      → seek_opened k e n s1 ≡ ok s2
      → Sought pool e n s s2
  unfolding seek_opened
  seek_opened-Sought pool e n s s1 {s2} o h = elim (Bool-cases (bit_and e.flags o_path == 0)) [
    | inl has_position ↦
        let moves : k.lseek n e.position s1 ≡ some s2 =
          or_exit-eq-ok not_sought (k.lseek n e.position s1) (ground (arith, h)) in
        record {
          id = o.id;
          was_free = o.was_free;
          stands_for = laws.lseek_at n e.position s1 moves n ∙ o.stands_for;
          wanted =
              rw (laws.lseek_moves n e.position s1 moves o.stands_for, o.file_is)
                (record { path_is = refl; flags_are = refl; position_is = λ _. refl });
          others = λ m away. laws.lseek_at n e.position s1 moves m ∙ o.others m away;
          files_kept = λ m j held.
              let away = fresh_id (table s) o.fresh m j held in
              laws.lseek_keeps n e.position s1 moves o.stands_for j away ∙ o.files_kept j away;
        }
    | inr no_position ↦
        let same : s1 ≡ s2 = ok-injective {E = ChildError} (ground (arith, h)) in
        rw (← same) (record {
          id = o.id;
          was_free = o.was_free;
          stands_for = o.stands_for;
          wanted = rw o.file_is (record {
            path_is = refl;
            flags_are = refl;
            position_is = λ zero. ground (arith, no_position, zero);
          });
          others = o.others;
          files_kept = λ m j held. o.files_kept j (fresh_id (table s) o.fresh m j held);
        })
  ]
