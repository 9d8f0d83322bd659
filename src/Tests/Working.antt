-- ===== src/Tests/Working.antt =====
-- The rebuilding under a kernel that refuses nothing.
use mathlib.Core.Path.{subst}
use ksnap.Base.{
  Bool, true, false, List, All, ok-injective, ◌≡◌, refl, some, [], ◌∷◌, length, arith, ok,
}
use ksnap.Restorer.Process.{Tracer}
use ksnap.Base.Text.{Bytes, codes, same_text}
use ksnap.Maps.Find.{find_in_lines, find_named_map}
use ksnap.Maps.Scan.{parse_maps_line}
use ksnap.Restorer.{Snapshot}
use ksnap.Restorer.Rebuild.{restore_fd_flags}
use ksnap.Restorer.KernelMaps.{text_of, find_hulls, widen}
use ksnap.Restorer.Restore.{rebuild}
use ksnap.Restorer.Inject.Obliging.{IsObliging}
use ksnap.Restorer.KernelMaps.Works.{IsNamed, CanMove}
use ksnap.Restorer.Restore.Works.{rebuild-Succeeds}
use ksnap.RoundTrip.Whole.{snapshot_of}
use ksnap.Tests.Snapshots.{parts}
use ksnap.Tests.Restores.{start_regs, data_vma, small_file, vdso_lines, vdso, vdso_header}

-- The maps file, with the vdso where the kernel put it, or where the snapshot wants it.
abbrev maps_of : Bool → List Bytes
maps_of false = vdso_lines
maps_of true = codes "a000-c000 r-xp 00000000 00:00 0   [vdso]" ∷ []

-- A kernel that refuses nothing, and remembers only whether a system call moved the vdso.
abbrev yes : Tracer
yes = record {
  State = Bool;
  getregs = λ s. some start_regs;
  setregs = λ r s. some s;
  setxstate = λ x s. some s;
  peektext = λ a s. some 0;
  poketext = λ a w s. some s;
  singlestep = λ s. some true;
  wait = λ s. some s;
  pwrite = λ bs a s. some (length bs, s);
  maps = λ s. some (maps_of s);
}

yes-IsObliging : IsObliging yes
yes-IsObliging = record {
  gets = λ s. (start_regs, refl);
  sets = λ r s. (s, refl);
  sets_xstate = λ x s. (s, refl);
  peeks = λ a s. (0, refl);
  pokes = λ a w s. (s, refl);
  steps = λ s. (true, true, start_regs, refl, refl, refl, refl);
  writes = λ bs a s. (s, refl);
}

is_named : (u : Bool) → All (IsNamed yes u) (vdso ∷ [])
unfolding text_of find_named_map find_in_lines parse_maps_line same_text
is_named false = (((0x7000, 0x2000), refl), tt)
is_named true = (((0xA000, 0x2000), refl), tt)

can_move : CanMove yes vdso_header false
unfolding find_hulls widen text_of find_named_map find_in_lines parse_maps_line same_text
can_move = (_, refl, refl)

abbrev sample : Snapshot
sample = record (snapshot_of parts) { header = vdso_header; vmas = data_vma ∷ [] }

keeps_flags : (s : Bool) → restore_fd_flags yes sample.fds false ≡ ok s → CanMove yes vdso_header s
unfolding restore_fd_flags
keeps_flags s e = subst (CanMove yes vdso_header) (ok-injective e) can_move

rebuild-Succeeds_example :
    (s : Bool) × (rebuild yes (λ bytes. start_regs) small_file sample false ≡ ok s)
rebuild-Succeeds_example =
    rebuild-Succeeds yes yes-IsObliging (λ bytes. start_regs) small_file sample false is_named
      keeps_flags ((omega arith, omega arith), tt)
