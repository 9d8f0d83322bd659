-- ===== src/Restorer/Rebuild/Payload.antt =====
-- The payload of one mapping arrives in the memory of the process.
use Prim.Native.Nat.{min}
use mathlib.Core.List.{append_assoc}
use ksnap.Base.{
  ℕ, zero, suc, ◌+◌, ◌-◌, ◌≤◌, ◌<◌, ◌≡◌, refl, ap, sym, ◌∙◌, inl, inr, some, [], ◌++◌, length,
  length-append, arith, ltb, ◌==◌, ==_iff, ok, ◌>>=◌, ◌>>◌, guard, >>=-eq-ok, guard->>-eq-ok,
  Bool-cases,
}
use ksnap.Base.Text.{Bytes}
use ksnap.Base.Word.{add64}
use ksnap.Format.{VmaDescriptor}
use ksnap.Format.Codec.{get}
use ksnap.Dumper.Payload.Copy.{InAddressSpace}
use ksnap.Restorer.Process.{View, Tracer, IsTracer, overlay}
use ksnap.Restorer.Process.Memory.{overlay-append, overlay-at, get-eq-some}
use ksnap.Restorer.Inject.Calls.{or_error-eq-ok}
use ksnap.Restorer.Inject.{payload_read, payload_write, or_error}
use ksnap.Restorer.Rebuild.{write_chunks}

-- One round of the loop that succeeded.
record Round (t : Tracer) (v : VmaDescriptor) (rounds curr : ℕ) (rest : Bytes) (s s' : t.State)
    : Type 0 where
  pub chunk : Bytes
  pub more : Bytes
  pub mid : t.State
  pub reads : get (min (v.size - curr) 4096) rest ≡ some (chunk, more)
  pub writes : t.pwrite chunk (add64 v.start_address curr) s ≡ some (min (v.size - curr) 4096, mid)
  pub goes_on : write_chunks t v rounds (curr + min (v.size - curr) 4096) more mid ≡ ok s'

write_chunks-Round :
    (t : Tracer) (v : VmaDescriptor) (rounds curr : ℕ) (rest : Bytes) (s : t.State) {s' : t.State}
    → curr < v.size
    → write_chunks t v (suc rounds) curr rest s ≡ ok s'
    → Round t v rounds curr rest s s'
unfolding write_chunks
write_chunks-Round t v rounds curr rest s {s'} less h =
    let now = min (v.size - curr) 4096 in
    let at = add64 v.start_address curr in
    let ((chunk, more), h1, k1) =
      >>=-eq-ok (or_error payload_read (get now rest))
        (λ (c, m). or_error payload_write (t.pwrite c at s) >>= λ (w, u).
          guard (w == now) payload_write >> write_chunks t v rounds (curr + now) m u)
        {out = s'} (ground (arith, h)) in
    let ((written, mid), h2, k2) = >>=-eq-ok (or_error payload_write (t.pwrite chunk at s)) _ k1 in
    let (all, h3) = guard->>-eq-ok (written == now) payload_write _ k2 in
    record {
      chunk = chunk;
      more = more;
      mid = mid;
      reads = or_error-eq-ok payload_read (get now rest) h1;
      writes =
          or_error-eq-ok payload_write (t.pwrite chunk at s) h2
          ∙ ap (λ w. some (w, mid)) ((==_iff written now).0 all);
      goes_on = h3;
    }

module _ (t : Tracer) (view : t.State → View) (laws : IsTracer t view) where
  -- What the loop has written, from `curr` on: the front of the stream, to the end of the mapping.
  pub record Written (v : VmaDescriptor) (curr : ℕ) (rest : Bytes) (s s' : t.State) : Type 0 where
    pub payload : Bytes
    pub behind : Bytes
    pub split : rest ≡ payload ++ behind
    pub full : length payload ≡ v.size - curr
    pub regs_kept : (view s').regs ≡ (view s).regs
    pub prot_kept : (x : ℕ) → (view s').prot x ≡ (view s).prot x
    pub bytes :
        (x : ℕ) → (view s').byte x ≡ overlay (v.start_address + curr) payload (view s).byte x

  finished :
      (v : VmaDescriptor) (curr : ℕ) (rest : Bytes) (s s' : t.State)
      → v.size ≤ curr
      → s ≡ s'
      → Written v curr rest s s'
  finished v curr rest s s' h e = record {
    payload = [];
    behind = rest;
    split = refl;
    full = omega arith;
    regs_kept = ap (λ u. (view u).regs) (sym e);
    prot_kept = λ x. ap (λ u. (view u).prot x) (sym e);
    bytes = λ x. ap (λ u. (view u).byte x) (sym e);
  }

  add64-start :
      (v : VmaDescriptor) (curr : ℕ)
      → InAddressSpace v
      → curr < v.size
      → add64 v.start_address curr ≡ v.start_address + curr
  add64-start v curr space less = omega arith

  behind_chunk : (a b n k : ℕ) → k ≡ n → a + (b + n) ≡ a + b + k
  behind_chunk a b n k h = omega arith

  round-Written :
      (v : VmaDescriptor) (rounds curr : ℕ) (rest : Bytes) (s s' : t.State)
      → InAddressSpace v
      → curr < v.size
      → (r : Round t v rounds curr rest s s')
      → Written v (curr + min (v.size - curr) 4096) r.more r.mid s'
      → Written v curr rest s s'
  round-Written v rounds curr rest s s' space less r w =
      let now = min (v.size - curr) 4096 in
      let (same, long) = get-eq-some now rest r.reads in
      let at = add64-start v curr space less in
      let wrote =
        laws.pwrite_writes r.chunk (add64 v.start_address curr) s
          (r.writes ∙ ap (λ n. some (n, r.mid)) (sym long)) in
      record {
        payload = r.chunk ++ w.payload;
        behind = w.behind;
        split =
            same ∙ ap (λ l. r.chunk ++ l) w.split ∙ sym (append_assoc r.chunk w.payload w.behind);
        full = length-append r.chunk w.payload ∙ omega (arith, long, w.full);
        regs_kept = w.regs_kept ∙ ap (λ u. u.regs) wrote;
        prot_kept = λ x. w.prot_kept x ∙ ap (λ u. u.prot x) wrote;
        bytes = λ x.
            w.bytes x
            ∙ ap (λ b. overlay b w.payload (view r.mid).byte x)
                (behind_chunk (v.start_address) curr now (length r.chunk) long)
            ∙ overlay-at (v.start_address + curr + length r.chunk) w.payload (view r.mid).byte
                (overlay (v.start_address + curr) r.chunk (view s).byte) x
                (ap (λ u. u.byte x) wrote ∙ ap (λ a. overlay a r.chunk (view s).byte x) at)
            ∙ overlay-append (v.start_address + curr) r.chunk w.payload (view s).byte x;
      }

  pub write_chunks-Written :
      (v : VmaDescriptor) (rounds curr : ℕ) (rest : Bytes) (s : t.State) {s' : t.State}
      → InAddressSpace v
      → v.size ≤ curr + rounds
      → write_chunks t v rounds curr rest s ≡ ok s'
      → Written v curr rest s s'
  unfolding write_chunks
  write_chunks-Written v zero curr rest s {s'} space enough h =
      finished v curr rest s s' (omega arith) cc
  write_chunks-Written v (suc rounds) curr rest s {s'} space enough h =
      elim (Bool-cases (ltb curr v.size)) [
        | inl less ↦
            let r = write_chunks-Round t v rounds curr rest s (ground arith) h in
            round-Written v rounds curr rest s s' space (ground arith) r (
              write_chunks-Written v rounds (curr + min (v.size - curr) 4096) r.more r.mid space
                (omega arith) r.goes_on)
        | inr no_more ↦ finished v curr rest s s' (ground arith) (ground arith)
      ]
