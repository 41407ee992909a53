-- ===== src/Firehose/Fetch/Sectors.antt =====
-- `firehose_issue_read` of src/firehose.c stores what the device sends, however it is cut into reads.
use qdl.Base.{
  ℕ, zero, suc, ◌+◌, ◌-◌, ◌*◌, ◌/◌, ◌≡◌, refl, sym, subst, min, Bool, true, false, Option, none,
  some, [], ◌++◌, Bytes, length, arith, length-append, if◌then◌else◌,
}
use qdl.Io.Refine.{IsValid}
use qdl.Firehose.{Env, Host}
use qdl.Firehose.Receive.{budget}
use qdl.Firehose.Send.{generic_read, is_ack}
use qdl.Firehose.Send.Valid.{request-HasValidBuffer}
use qdl.Firehose.Op.{FirehoseOp, sector_size_of, request}
use qdl.Firehose.Stream.Delivery.{split_sectors}
use qdl.Firehose.Fetch.{
  Sink, store, Fetched, fill_rounds, stored, chunk_read, fetch_rounds, read_tag, count_read,
  fetched, fetch_from, read_sized, firehose_issue_read,
}
use qdl.Firehose.Fetch.Chunk.{
  Stored, Stored-append, Stored-nil, OnStored, store-Stored, Took, Took-append, Filled, OnFilled,
  FillsFrom, fill_rounds-Filled,
}

module _ {G : Type 0} (env : Env G) where
  -- `n` bytes of what is coming went to the sink.
  pub record Transferred (n : ℕ) (sink : Sink) (h : Host G) (sink' : Sink) (h' : Host G)
      : Type 0 where
    pub bytes : Bytes
    pub took_lem : Took env h bytes h'
    pub length_lem : length bytes ≡ n
    pub stored_lem : Stored sink bytes sink'

  abbrev pub OnTransfer : (Sink → Host G → Type 0) → Fetched env → Type 0
  OnTransfer P none = Unit
  OnTransfer P (some (false, sink, h)) = Unit
  OnTransfer P (some (true, sink, h)) = P sink h

  module _ (n k : ℕ) (sink0 : Sink) (h0 : Host G) (next : Sink → Host G → Fetched env)
      (ih : (sink : Sink) (h : Host G)
        → IsValid h.pending
        → OnTransfer (Transferred k sink h) (next sink h)) where
    stored-Transferred :
        (buf : Bytes) (h1 : Host G) (out : Bool × Sink)
        → Filled env n [] h0 buf h1
        → OnStored sink0 buf out
        → OnTransfer (Transferred (n + k) sink0 h0) (stored env next h1 out)
    unfolding stored OnStored
    stored-Transferred buf h1 (false, sink1) f s = tt
    stored-Transferred buf h1 (true, sink1) f s = behind (next sink1 h1) (ih sink1 h1 f.took.valid)
      where
        behind :
            (out : Fetched env)
            → OnTransfer (Transferred k sink1 h1) out
            → OnTransfer (Transferred (n + k) sink0 h0) out
        behind none t = tt
        behind (some (false, sink2, h2)) t = tt
        behind (some (true, sink2, h2)) t = record {
          bytes = buf ++ t.bytes;
          took_lem =
              Took-append env h0 h1 h2 buf t.bytes
                (subst (λ b. Took env h0 b h1) (sym f.buf_lem) f.took) t.took_lem;
          length_lem = omega (arith, length-append {0} buf t.bytes, f.full, t.length_lem);
          stored_lem = Stored-append sink0 sink1 sink2 buf t.bytes s t.stored_lem;
        }

    chunk_read-Transferred :
        (out : Option (Option Bytes × Host G))
        → OnFilled env n [] h0 out
        → OnTransfer (Transferred (n + k) sink0 h0) (chunk_read env next sink0 out)
    unfolding chunk_read
    chunk_read-Transferred none f = tt
    chunk_read-Transferred (some (none, h1)) f = tt
    chunk_read-Transferred (some (some buf, h1)) f =
        stored-Transferred buf h1 (store sink0 buf) f (store-Stored sink0 buf)

  fetch_rounds-Transferred :
      (rounds sector_size sectors : ℕ) (sink : Sink) (h : Host G)
      → IsValid h.pending
      → OnTransfer
          (Transferred (sectors * sector_size) sink h)
          (fetch_rounds env rounds sector_size sectors sink h)
  unfolding fetch_rounds FillsFrom
  fetch_rounds-Transferred rounds sector_size zero sink h v = record {
    bytes = [];
    took_lem = record { split = refl; valid = v };
    length_lem = omega arith;
    stored_lem = Stored-nil sink;
  }
  fetch_rounds-Transferred zero sector_size (suc left) sink h v = tt
  fetch_rounds-Transferred (suc rounds) sector_size (suc left) sink h v =
      let c = min (h.max_payload_size / sector_size) (suc left) in
      let n = c * sector_size in
      let k = (suc left - c) * sector_size in
      subst
        (λ m.
          OnTransfer (Transferred m sink h)
            (fetch_rounds env (suc rounds) sector_size (suc left) sink h))
        {x = n + k} (split_sectors c (suc left) sector_size (omega arith))
        (chunk_read-Transferred n k sink h (fetch_rounds env rounds sector_size (suc left - c))
          (fetch_rounds-Transferred rounds sector_size (suc left - c))
          (fill_rounds env (suc (budget h)) n [] h)
          (fill_rounds-Filled env (suc (budget h)) n [] h v (omega arith)))

  -- What is true behind the request of a read: the transfer, then the final response.
  pub record Served (n : ℕ) (sink : Sink) (h : Host G) (sink' : Sink) : Type 0 where
    pub behind : Host G
    pub transfer_lem : Transferred n sink h sink' behind

  fetched-Served :
      (quiet : Bool) (n : ℕ) (sink : Sink) (h : Host G) (out : Fetched env)
      → OnTransfer (Transferred n sink h) out
      → OnTransfer (λ sink' h'. Served n sink h sink') (fetched env quiet out)
  unfolding fetched
  fetched-Served quiet n sink h none t = tt
  fetched-Served quiet n sink h (some (false, sink', h')) t = tt
  fetched-Served quiet n sink h (some (true, sink', h')) t =
      let (r, h'') = generic_read env 10000 h' in
      acked (is_ack env r) (count_read env quiet h'') h''
    where
      acked :
          (b : Bool) (h1 h2 : Host G)
          → OnTransfer
              (λ s _. Served n sink h s)
              (if b then some (true, sink', h1) else some (false, sink', h2))
      acked true h1 h2 = record { behind = h'; transfer_lem = t }
      acked false h1 h2 = tt

  fetch_from-Served :
      (quiet : Bool) (sector_size num_sectors : ℕ) (sink : Sink) (r : Bool × Host G)
      → IsValid r.1.pending
      → OnTransfer
          (λ sink' h'. Served (num_sectors * sector_size) sink r.1 sink')
          (fetch_from env quiet sector_size num_sectors sink r)
  unfolding fetch_from
  fetch_from-Served quiet sector_size num_sectors sink (false, h) v = tt
  fetch_from-Served quiet sector_size num_sectors sink (true, h) v =
      fetched-Served quiet _ sink h _
        (fetch_rounds-Transferred num_sectors sector_size num_sectors sink h v)

  -- The host behind the response to the request.
  abbrev pub requested : FirehoseOp → Host G → Host G
  requested read_op h = (request env (read_tag env h read_op (sector_size_of h read_op)) 10000 h).1

  read_sized-Served :
      (size : ℕ) (read_op : FirehoseOp) (sink : Sink) (quiet : Bool) (h : Host G)
      → IsValid h.pending
      → OnTransfer
          (λ sink' h'.
            Served
              (read_op.num_sectors * size)
              sink
              (request env (read_tag env h read_op size) 10000 h).1
              sink')
          (read_sized env size read_op sink quiet h)
  unfolding read_sized
  read_sized-Served zero read_op sink quiet h v = tt
  read_sized-Served (suc n) read_op sink quiet h v =
      fetch_from-Served quiet (suc n) read_op.num_sectors sink _
        (request-HasValidBuffer env (read_tag env h read_op (suc n)) 10000 h v)

  -- When `firehose_issue_read` reports success, its file has grown by exactly the
  -- `num_sectors * sector_size` bytes that came next behind the response to its request, or its buffer
  -- by those of them that fit. They are the bytes that were pushed back and then those that arrived, in
  -- order, however the transport cuts them into reads.
  pub firehose_issue_read-Served :
      (read_op : FirehoseOp) (sink : Sink) (quiet : Bool) (h : Host G)
      → IsValid h.pending
      → OnTransfer
          (λ sink' h'.
            Served
              (read_op.num_sectors * sector_size_of h read_op)
              sink
              (requested read_op h)
              sink')
          (firehose_issue_read env read_op sink quiet h)
  unfolding firehose_issue_read
  firehose_issue_read-Served read_op sink quiet h v =
      allocated (env.malloc h.max_payload_size) _ _
        (read_sized-Served (sector_size_of h read_op) read_op sink quiet h v)
    where
      allocated :
          (b : Bool) (P : Sink → Host G → Type 0) (out : Fetched env)
          → OnTransfer P out
          → OnTransfer P (if b then out else some (false, sink, h))
      allocated true P out t = t
      allocated false P out t = tt
