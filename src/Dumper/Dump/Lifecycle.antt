-- ===== src/Dumper/Dump/Lifecycle.antt =====
-- The process during a dump, as a state machine that the calls of the dump drive.
use ksnap.Base.{
  ◌≡◌, ◌≢◌, inl, inr, Bool, true, false, none, some, List, [], ◌∷◌, ◌++◌, arith, if◌then◌else◌,
  Bool-cases, Option-cases,
}
use ksnap.Base.Text.{Bytes}
use ksnap.Args.{Config, build_snapshot_path}
use ksnap.Dumper.Dump.{
  Target, Call, seize, interrupt, wait_stop, kill, reap, detach, DumpRun, is_some, stop_calls,
  snapshot_if_stopped, stopped, release, dump_seized, dump,
}

-- Untouched or released; seized by the dump; killed, but not waited for; ended; or still seized
-- because the release failed.
pub data Hold : Type 0 where
  free held dying ended stuck : Hold

-- What a call does to the process. Nothing leads on from `free` but a new seizure, nothing from
-- `ended` or `stuck` at all.
pub data Step : Hold → Call → Hold → Type 0 where
  seized : Step free (seize true) held
  not_seized : Step free (seize false) free
  interrupts : (b : Bool) → Step held (interrupt b) held
  waits : (b : Bool) → Step held (wait_stop b) held
  killed : Step held (kill true) dying
  not_killed : Step held (kill false) held
  reaped : Step dying reap ended
  detached : Step held (detach true) free
  not_detached : Step held (detach false) stuck

pub data Steps : Hold → List Call → Hold → Type 0 where
  done : {h : Hold} → Steps h [] h
  then_call :
      {h h' h'' : Hold} {c : Call} {cs : List Call}
      → Step h c h'
      → Steps h' cs h''
      → Steps h (c ∷ cs) h''

Steps-append :
    {h h' h'' : Hold} {cs ds : List Call} → Steps h cs h' → Steps h' ds h'' → Steps h (cs ++ ds) h''
Steps-append done k = k
Steps-append (then_call s r) k = then_call s (Steps-append r k)

-- How a dump may leave the process: free; ended, which takes a complete snapshot and the wish to
-- kill; or stuck, which the status shows.
pub record IsLeft (wanted saved status : Bool) (h : Hold) : Type 0 where
  pub not_held : h ≢ held
  pub not_dying : h ≢ dying
  pub ended_only : h ≡ ended → (wanted ≡ true) × (saved ≡ true)
  pub stuck_shows : h ≡ stuck → status ≡ false
  pub success : status ≡ true → (saved ≡ true) × (h ≡ (if wanted then ended else free))

stop_calls-Steps : (t : Target) → Steps held (stop_calls t) held
unfolding stop_calls
stop_calls-Steps t = by_answer t.interrupts
  where
    by_answer :
        (b : Bool)
        → Steps held
            (if b then interrupt true ∷ wait_stop (stopped t.stops) ∷ [] else interrupt false ∷ [])
            held
    by_answer true = then_call (interrupts true) (then_call (waits (stopped t.stops)) done)
    by_answer false = then_call (interrupts false) done

abbrev pub after_detach : Bool → Hold
after_detach true = free
after_detach false = stuck

pub detach-Steps : (b : Bool) → Steps held (detach b ∷ []) (after_detach b)
detach-Steps true = then_call detached done
detach-Steps false = then_call not_detached done

-- The state in which the release leaves the process.
abbrev left : Bool → Bool → Bool → Bool → Hold
left true true true d = ended
left true true false d = after_detach d
left true false k d = after_detach d
left false s k d = after_detach d

release-Steps :
    (wanted saved kills detaches : Bool)
    → Steps held (release wanted saved kills detaches).0 (left wanted saved kills detaches)
release-Steps true true true d = then_call killed (then_call reaped done)
release-Steps true true false d = then_call not_killed (detach-Steps d)
release-Steps true false k d = detach-Steps d
release-Steps false true k d = detach-Steps d
release-Steps false false k d = detach-Steps d

release-IsLeft :
    (wanted saved kills detaches : Bool)
    → IsLeft wanted saved (release wanted saved kills detaches).1 (left wanted saved kills detaches)
release-IsLeft true true true d = ground arith
release-IsLeft true true false true = ground arith
release-IsLeft true true false false = ground arith
release-IsLeft true false k true = ground arith
release-IsLeft true false k false = ground arith
release-IsLeft false true k true = ground arith
release-IsLeft false true k false = ground arith
release-IsLeft false false k true = ground arith
release-IsLeft false false k false = ground arith

-- The run of a dump that made at most one attempt to seize.
abbrev untouched : List Call → DumpRun
untouched calls = record { calls = calls; saved = none; status = false }

module _ (c : Config) (t : Target) where
  dump-no_path : build_snapshot_path c ≡ none → dump c t ≡ untouched []
  unfolding dump
  dump-no_path h = ground (arith, h)

  dump-not_seized :
      {path : Bytes}
      → build_snapshot_path c ≡ some path
      → t.seizes ≡ false
      → dump c t ≡ untouched (seize false ∷ [])
  unfolding dump
  dump-not_seized h k = ground (arith, h, k)

  dump-seized :
      {path : Bytes}
      → build_snapshot_path c ≡ some path
      → t.seizes ≡ true
      → dump c t ≡ dump_seized c t
  unfolding dump
  dump-seized h k = ground (arith, h, k)

abbrev DumpLeft : Config → DumpRun → Type 0
DumpLeft c r =
    (h : Hold) × Steps free r.calls h × IsLeft c.kill_after_dump (is_some r.saved) r.status h

untouched-DumpLeft :
    (c : Config) (calls : List Call) → Steps free calls free → DumpLeft c (untouched calls)
untouched-DumpLeft c calls s = (free, s, ground arith)

dump_seized-DumpLeft : (c : Config) (t : Target) → DumpLeft c (dump_seized c t)
unfolding dump_seized
dump_seized-DumpLeft c t =
    let saved = is_some (snapshot_if_stopped t) in
    (
      left c.kill_after_dump saved t.kills t.detaches,
      then_call seized (
          Steps-append (stop_calls-Steps t)
            (release-Steps c.kill_after_dump saved t.kills t.detaches)),
      release-IsLeft c.kill_after_dump saved t.kills t.detaches,
    )

-- However the system answers, the calls of a dump lead from the free process to one that is not
-- left seized or half killed. It has ended only if the kill was wanted and the snapshot is
-- complete; it stays stuck only where the detaching failed and the status is an error. On success
-- the snapshot is complete, and the process has ended if a kill was wanted, and runs free if not.
pub dump-IsLeft :
    (c : Config) (t : Target)
    → (h : Hold) × Steps free (dump c t).calls h
      × IsLeft c.kill_after_dump (is_some (dump c t).saved) (dump c t).status h
dump-IsLeft c t = elim (Option-cases (build_snapshot_path c)) [
  | inl h ↦ rw (dump-no_path c t h) (untouched-DumpLeft c [] done)
  | inr (path, h) ↦ elim (Bool-cases t.seizes) [
    | inl k ↦ rw (dump-seized c t h k) (dump_seized-DumpLeft c t)
    | inr k ↦
        rw (dump-not_seized c t h k)
          (untouched-DumpLeft c (seize false ∷ []) (then_call not_seized done))
  ]
]
