-- ===== src/Restorer/KernelMaps/Enclosing.antt =====
-- The hulls that `find_hulls` gives enclose every kernel mapping and every target.
use mathlib.Core.Path.{subst}
use ksnap.Base.{
  ℕ, ◌≤◌, ◌≡◌, ap, sym, ◌∙◌, ok-injective, Option, some, List, [], ◌∷◌, All, arith, ◌==◌, ==_iff,
  ok, >>=-eq-ok, guard->>-eq-ok,
}
use ksnap.Base.Text.{Bytes}
use ksnap.Base.Word.{add64}
use ksnap.Format.{KernelMap}
use ksnap.Maps.Find.{find_named_map}
use ksnap.Restorer.Inject.Calls.{or_error-eq-ok}
use ksnap.Restorer.Inject.{no_kernel_map, kernel_map_size, or_error}
use ksnap.Restorer.KernelMaps.{Hulls, widen, find_hulls, text_of}

-- The mapping of the child for this target, of the target's size, inside the hulls.
pub record Found (lines : Option (List Bytes)) (h : Hulls) (wanted : KernelMap) : Type 0 where
  pub start : ℕ
  pub found : find_named_map lines (text_of wanted.name) ≡ some (start, wanted.size)
  pub child_low : h.child_lowest ≤ start
  pub child_high : add64 start wanted.size ≤ h.child_highest
  pub wanted_low : h.wanted_lowest ≤ wanted.start_address
  pub wanted_high : add64 wanted.start_address wanted.size ≤ h.wanted_highest

pub record Wider (h h' : Hulls) : Type 0 where
  pub child_low : h'.child_lowest ≤ h.child_lowest
  pub child_high : h.child_highest ≤ h'.child_highest
  pub wanted_low : h'.wanted_lowest ≤ h.wanted_lowest
  pub wanted_high : h.wanted_highest ≤ h'.wanted_highest

Wider-refl : (h : Hulls) → Wider h h
Wider-refl h = record {
  child_low = omega arith;
  child_high = omega arith;
  wanted_low = omega arith;
  wanted_high = omega arith;
}

Wider-widen :
    (h h' : Hulls) (start size : ℕ) (wanted : KernelMap)
    → Wider (widen h start size wanted) h'
    → Wider h h'
unfolding widen
Wider-widen h h' start size wanted w = record {
  child_low = omega (arith, w.child_low);
  child_high = omega (arith, w.child_high);
  wanted_low = omega (arith, w.wanted_low);
  wanted_high = omega (arith, w.wanted_high);
}

-- The two calls of one round, with what they gave.
record Round (lines : Option (List Bytes)) (wanted : KernelMap) (maps : List KernelMap)
    (h h' : Hulls) : Type 0 where
  pub start : ℕ
  pub found : find_named_map lines (text_of wanted.name) ≡ some (start, wanted.size)
  pub goes_on : find_hulls lines maps (widen h start wanted.size wanted) ≡ ok h'

find_hulls-Round :
    (lines : Option (List Bytes)) (wanted : KernelMap) (maps : List KernelMap) (h : Hulls)
    {h' : Hulls}
    → find_hulls lines (wanted ∷ maps) h ≡ ok h'
    → Round lines wanted maps h h'
unfolding find_hulls
find_hulls-Round lines wanted maps h e =
    let name = text_of wanted.name in
    let ((start, size), h1, k1) =
      >>=-eq-ok (or_error no_kernel_map (find_named_map lines name)) _ e in
    let (same, k2) = guard->>-eq-ok (size == wanted.size) kernel_map_size _ k1 in
    let is = (==_iff size wanted.size).0 same in
    record {
      start = start;
      found =
          or_error-eq-ok no_kernel_map (find_named_map lines name) h1
          ∙ ap (λ n. some (start, n)) is;
      goes_on = ap (λ n. find_hulls lines maps (widen h start n wanted)) (sym is) ∙ k2;
    }

pub find_hulls-Wider :
    (lines : Option (List Bytes)) (maps : List KernelMap) (h : Hulls) {h' : Hulls}
    → find_hulls lines maps h ≡ ok h'
    → Wider h h' × All (Found lines h') maps
unfolding find_hulls widen
find_hulls-Wider lines [] h {h'} e = (subst (Wider h) (ok-injective e) (Wider-refl h), tt)
find_hulls-Wider lines (wanted ∷ maps) h {h'} e =
    let r = find_hulls-Round lines wanted maps h e in
    let (wider, rest) =
      find_hulls-Wider lines maps (widen h r.start wanted.size wanted) r.goes_on in
    (Wider-widen h h' r.start wanted.size wanted wider, (widened wider r.found, rest))
  where
    widened :
        {start : ℕ}
        → Wider (widen h start wanted.size wanted) h'
        → find_named_map lines (text_of wanted.name) ≡ some (start, wanted.size)
        → Found lines h' wanted
    widened {start} w found = record {
      start = start;
      found = found;
      child_low = omega (arith, w.child_low);
      child_high = omega (arith, w.child_high);
      wanted_low = omega (arith, w.wanted_low);
      wanted_high = omega (arith, w.wanted_high);
    }
