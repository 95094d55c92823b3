-- ===== src/Core/Exchange/Invariant/Chunks.antt =====
-- Chunks, refusals and reads keep the invariant.
use smkvm.Base.{
  ℕ, ◌≤◌, ◌≡◌, Bool, true, false, not, eqb, ltb, if◌then◌else◌, Option, none, some, List, ◌++◌,
  Option-cases, Bool-cases, inl, inr, arith,
}
use smkvm.Base.Equality.{pair_eq, pair_ord, nat_eq, nat_ord}
use smkvm.Base.Lists.{length}
use smkvm.Base.Maps
use smkvm.Layout.Model.{DeviceId}
use smkvm.Proto.Msg.{
  seq_eq, seq_ord, format_eq, format_ord, ClipSeq, ClipFormat, ClipError, clip_request, seq_beq_iff,
}
use smkvm.Core.Exchange.State.{
  Contents, ok, err, Key, Run, Fetching, local_offer, held_offer, local_seq, Output,
}
use smkvm.Core.Exchange.Serve.{push, with_self, serve_waiters, fail_waiters, drop_fetch}
use smkvm.Core.Exchange.Fetches.{
  end_read, give_up, store_chunk, absorb_chunk, chunk_arrived, unavailable, on_read_done,
  is_local_seq,
}
use smkvm.Core.Exchange.Invariant.{Inv}
use smkvm.Core.Exchange.Tidy.Steps.{
  fail_fetch-Tidy, serve_fetch-Tidy, fail_read-Tidy, serve_read-Tidy,
}
use smkvm.Core.Exchange.Tidy.Forget.{store_chunk-Tidy, give_up-Tidy, give_up_stored}

give_up-Inv :
    (from : DeviceId) (k : Key) (why : ClipError) (r : Run)
    → Inv r.self
    → Inv (give_up from k why r).self
give_up-Inv from k why r v =
    let t = give_up-Tidy from k why r v.tidy in
    unfold give_up in (record { alone = v.alone; tidy = t })

store_chunk-Inv :
    (from : DeviceId) (k : Key) (bytes : List ℕ) (r : Run)
    → held_offer r.self ≡ some (k.0)
    → length bytes ≤ r.self.max_bytes
    → Inv r.self
    → Inv (store_chunk from k bytes r).self
store_chunk-Inv from k bytes r held fits v =
    let t = store_chunk-Tidy from k bytes r held fits v.tidy in
    unfold store_chunk in (record { alone = v.alone; tidy = t })

serve_fetch-Inv :
    (k : Key) (bytes : List ℕ) (r : Run)
    → held_offer r.self ≡ some (k.0)
    → length bytes ≤ r.self.max_bytes
    → Inv r.self
    → Inv (serve_waiters k bytes (with_self (drop_fetch k) r)).self
serve_fetch-Inv k bytes r held fits v =
    let t = serve_fetch-Tidy k bytes r held fits v.tidy in
    unfold serve_waiters drop_fetch in (record { alone = v.alone; tidy = t })

-- A chunk that is in step and within the limit.
chunk_taken-Inv :
    (from : DeviceId) (k : Key) (have : List ℕ) (last : Bool) (r : Run)
    → held_offer r.self ≡ some (k.0)
    → length have ≤ r.self.max_bytes
    → Inv r.self
    → Inv
        (if not last
          then push
              (Output.send from (clip_request k.0 k.1 (length have)))
              (store_chunk from k have r)
          else serve_waiters k have (with_self (drop_fetch k) (store_chunk from k have r))).self
chunk_taken-Inv from k have false r held fits v =
    let stored = store_chunk-Inv from k have r held fits v in unfold push in stored
chunk_taken-Inv from k have true r held fits v =
    let stored = store_chunk-Inv from k have r held fits v in
    let held' : held_offer (store_chunk from k have r).self ≡ some (k.0) =
      unfold store_chunk in held in
    let fits' : length have ≤ (store_chunk from k have r).self.max_bytes =
      unfold store_chunk in fits in
    serve_fetch-Inv k have (store_chunk from k have r) held' fits' stored

absorb_chunk-Inv :
    (from : DeviceId) (k : Key) (offset : ℕ) (bytes : List ℕ) (last : Bool) (f : Fetching) (r : Run)
    → held_offer r.self ≡ some (k.0)
    → Inv r.self
    → Inv (absorb_chunk from k offset bytes last f r).self
absorb_chunk-Inv from k offset bytes last f r held v =
    let have = f.buf ++ bytes in
    let n = length have in
    let limit = r.self.max_bytes in
    let r1 = store_chunk from k have r in
    let out_of_step = give_up-Inv from k ClipError.cancelled r v in
    let over = give_up-Inv from k (ClipError.too_large n limit) r v in
    let over' = rw (← give_up_stored from k (ClipError.too_large n limit) have r) at over in
    let taken = λ (fits : n ≤ limit). chunk_taken-Inv from k have last r held fits v in
    elim (Bool-cases (not (eqb f.from from))) [
      | inl a ↦ unfold absorb_chunk in rw a v
      | inr a ↦ elim (Bool-cases (not (eqb offset (length f.buf)))) [
        | inl b ↦ unfold absorb_chunk in rw (a, b) out_of_step
        | inr b ↦ elim (Bool-cases (ltb limit n)) [
          | inl c ↦ unfold absorb_chunk in rw (a, b, c) over'
          | inr c ↦ let done = taken (ground (arith, c)) in unfold absorb_chunk in rw (a, b, c) done
        ]
      ]
    ]

pub chunk_arrived-Inv :
    (from : DeviceId) (k : Key) (offset : ℕ) (bytes : List ℕ) (last : Bool) (r : Run)
    → Inv r.self
    → Inv (chunk_arrived from k offset bytes last r).self
chunk_arrived-Inv from k offset bytes last r v = elim (Option-cases (Maps.get k r.self.fetching)) [
  | inl e ↦ unfold chunk_arrived in rw (e, chunk_arrived) v
  | inr (f, e) ↦
      let held =
        Maps.All-get (λ (p : Key × Fetching). held_offer r.self ≡ some (p.0.0)) k f r.self.fetching
          e v.tidy.fetches in
      let absorbed = absorb_chunk-Inv from k offset bytes last f r held v in
      unfold chunk_arrived in rw (e, chunk_arrived) absorbed
]

pub unavailable-Inv :
    (from : DeviceId) (k : Key) (reason : ClipError) (r : Run)
    → Inv r.self
    → Inv (unavailable from k reason r).self
unavailable-Inv from k reason r v = elim (Option-cases (Maps.get k r.self.fetching)) [
  | inl e ↦ unfold unavailable in rw (e, unavailable) v
  | inr (f, e) ↦
      let t = fail_fetch-Tidy k reason r v.tidy in
      elim (Bool-cases (eqb f.from from)) [
        | inl b ↦
            unfold unavailable in rw (e, unavailable, b) (record { alone = v.alone; tidy = t })
        | inr b ↦ unfold unavailable in rw (e, unavailable, b) v
      ]
]

fail_read-Inv :
    (k : Key) (why : ClipError) (r : Run)
    → Inv r.self
    → Inv (fail_waiters k why (with_self (end_read k) r)).self
fail_read-Inv k why r v =
    let t = fail_read-Tidy k why r v.tidy in
    unfold fail_waiters in (record { alone = v.alone; tidy = t })

serve_read-Inv :
    (k : Key) (bytes : List ℕ) (r : Run)
    → local_offer r.self ≡ some (k.0)
    → length bytes ≤ r.self.max_bytes
    → Inv r.self
    → Inv (serve_waiters k bytes (with_self (end_read k) r)).self
serve_read-Inv k bytes r ours fits v =
    let t = serve_read-Tidy k bytes r ours fits v.tidy in
    unfold serve_waiters in (record { alone = v.alone; tidy = t })

is_local_seq-local :
    (s : ClipSeq) (o : Option (ClipSeq × List ClipFormat))
    → not (is_local_seq s o) ≡ false
    → local_seq o ≡ some s
is_local_seq-local s none e = cc
is_local_seq-local s (some p) e = ground (arith, seq_beq_iff (p.0) s)

pub on_read_done-Inv :
    (k : Key) (result : Contents) (r : Run) → Inv r.self → Inv (on_read_done k result r).self
on_read_done-Inv k (err e) r v = let failed = fail_read-Inv k e r v in unfold on_read_done in failed
on_read_done-Inv k (ok bytes) r v =
    let n = length bytes in
    let limit = r.self.max_bytes in
    let late = fail_read-Inv k ClipError.stale r v in
    let over = fail_read-Inv k (ClipError.too_large n limit) r v in
    elim (Bool-cases (not (is_local_seq (k.0) r.self.local))) [
      | inl a ↦ unfold on_read_done in rw a late
      | inr a ↦ elim (Bool-cases (ltb limit n)) [
        | inl b ↦ unfold on_read_done in rw (a, b) over
        | inr b ↦
            let ours = is_local_seq-local (k.0) r.self.local a in
            let served = serve_read-Inv k bytes r ours (ground (arith, b)) v in
            unfold on_read_done in rw (a, b) served
      ]
    ]
