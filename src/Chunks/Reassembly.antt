-- ===== src/Chunks/Reassembly.antt =====
-- A payload cut into chunks comes back whole, in whatever order its chunks arrive.
use unitree_webrtc_rs.Base.Dict.{
  lookup, str_eq_refl, lookup-insert_self, sum_of, sum_of-insert_new, sum_of-insert_old,
  insert as put_entry, remove as drop_entry, lookup-remove_self,
}
use unitree_webrtc_rs.Base.{
  ℕ, zero, suc, ◌+◌, ◌≤◌, ◌<◌, ◌≡◌, ◌≢◌, refl, ap, sym, ◌∙◌, ◌⊎◌, inl, inr, Option, none, some,
  List, [], ◌∷◌, ◌++◌, String, Bytes, Result, ok, length, flatten, replicate, get_elem?, All, arith,
}
use unitree_webrtc_rs.Chunks.Branches.{new_transfer}
use unitree_webrtc_rs.Chunks.Entries.{
  get, put, size, values, Selects, Selects-none, put-Selects, size-le-Selects, values-Selects,
  length-put, size-put, get-put_ne,
}
use unitree_webrtc_rs.Chunks.{
  Transfer, ChunkAssembler, store, join_transfer, begin_transfer, insert_checked, settle, insert,
  retained_of, transfer_ttl, max_chunks, max_transfer_bytes, max_transfers, max_retained_bytes,
}

abbrev get_or : List Bytes → ℕ → Bytes
get_or [] k = []
get_or (p ∷ ps) zero = p
get_or (p ∷ ps) (suc k) = get_or ps k

get_elem?-get_or : (ps : List Bytes) (k : ℕ) → k < length ps → get_elem? ps k ≡ some (get_or ps k)
get_elem?-get_or [] k h = absurd (omega arith)
get_elem?-get_or (p ∷ ps) zero h = refl
get_elem?-get_or (p ∷ ps) (suc k) h = get_elem?-get_or ps k (omega arith)

-- Chunk numbers start at 1.
abbrev pub part : List Bytes → ℕ → Bytes
part parts zero = []
part parts (suc k) = get_or parts k

none_ne : {t : Transfer} → none ≢ some t
none_ne p = ground (arith, p)

abbrev pub Distinct : List ℕ → Type 0
Distinct [] = Unit
Distinct (i ∷ is) = All (λ j. i ≢ j) is × Distinct is

-- The number of a chunk, and when it comes.
abbrev pub Arriving : Type 0
Arriving = ℕ × ℕ

abbrev pub numbers : List Arriving → List ℕ
numbers [] = []
numbers ((i, now) ∷ order) = i ∷ numbers order

module _ (key schema : String) (parts : List Bytes) where
  -- The chunks with these numbers, delivered in this order at these times, and the result of each call.
  pub feed : ChunkAssembler → List Arriving → ChunkAssembler × List (Result (Option Bytes))
  feed a [] = (a, [])
  feed a ((i, now) ∷ is) =
      let (b, r) = insert a key schema i (length parts) (part parts i) now in
      let (c, rs) = feed b is in (c, r ∷ rs)

module _ (key schema : String) (parts : List Bytes) (start : ℕ) where
  -- `t` is where the next chunk goes. The first comes at `start`.
  record IsReady (a : ChunkAssembler) (t : Transfer) : Type 0 where
    same_schema : t.schema ≡ schema
    same_total : t.total ≡ length parts
    same_deadline : t.deadline ≡ start + transfer_ttl
    selects : Selects 0 parts t.chunks
    counted : t.bytes ≡ size t.chunks
    room : retained_of a + length (flatten parts) ≤ max_retained_bytes + t.bytes
    entry :
        (lookup key a.transfers ≡ some t)
        ⊎ ((lookup key a.transfers ≡ none)
            × (t ≡ new_transfer schema (length parts) start)
            × (length a.transfers < max_transfers))

  module _ (positive : 0 < length parts) (few : length parts ≤ max_chunks)
      (small : length (flatten parts) ≤ max_transfer_bytes) where
    put-part-Selects :
        (m : List (ℕ × Bytes)) (i : ℕ)
        → Selects 0 parts m
        → 0 < i
        → i ≤ length parts
        → get i m ≡ none
        → Selects 0 parts (put i (part parts i) m)
    put-part-Selects m zero s p q g = absurd (omega arith)
    put-part-Selects m (suc k) s p q g =
        put-Selects (suc k) k (part parts (suc k)) s (omega arith) (get_elem?-get_or parts k q) g

    module _ (a : ChunkAssembler) (t : Transfer) (i now : ℕ) (r : IsReady a t) (p : 0 < i)
        (q : i ≤ length parts) (g : get i t.chunks ≡ none) (early : now < start + transfer_ttl)
        (first : lookup key a.transfers ≡ none → now ≡ start) where
      abbrev next_chunks : List (ℕ × Bytes)
      next_chunks = put i (part parts i) t.chunks

      abbrev next_transfer : Transfer
      next_transfer = record t { bytes = t.bytes + length (part parts i); chunks = next_chunks }

      size_next : t.bytes + length (part parts i) ≤ length (flatten parts)
      size_next = omega (
        arith,
        size-put i (part parts i) t.chunks g,
        r.counted,
        size-le-Selects (put-part-Selects t.chunks i r.selects p q g),
      )

      checked :
          insert_checked a key schema i (length parts) (part parts i) now
          ≡ store a key t i (length parts) (part parts i)
      unfolding insert_checked join_transfer begin_transfer
      checked = elim r.entry [
        | inl old ↦ ground (arith, str_eq_refl schema, size_next, old, early)
        | inr (new, e, few') ↦
            ground (arith, str_eq_refl schema, size_next, new, e, few', first new)
      ]

      stored_some :
          length next_chunks ≡ length parts
          → insert a key schema i (length parts) (part parts i) now ≡ (
            record a { transfers = drop_entry key (put_entry key next_transfer a.transfers) },
            ok (some (values next_chunks)),
          )
      unfolding insert settle store
      stored_some e = ground (arith, checked, size_next, r.room)

      stored_none :
          length next_chunks ≢ length parts
          → insert a key schema i (length parts) (part parts i) now
            ≡ (record a { transfers = put_entry key next_transfer a.transfers }, ok none)
      unfolding insert settle store
      stored_none e = ground (arith, checked, size_next, r.room)

      extended-IsReady :
          IsReady (record a { transfers = put_entry key next_transfer a.transfers }) next_transfer
      extended-IsReady = record {
        same_schema = r.same_schema;
        same_total = r.same_total;
        same_deadline = r.same_deadline;
        selects = put-part-Selects t.chunks i r.selects p q g;
        counted = omega (arith, size-put i (part parts i) t.chunks g, r.counted);
        room = retained_next;
        entry = inl (lookup-insert_self key next_transfer a.transfers);
      }
        where
          retained_next :
              sum_of (λ t. t.bytes) (put_entry key next_transfer a.transfers)
                + length (flatten parts)
              ≤ max_retained_bytes + (t.bytes + length (part parts i))
          retained_next = elim r.entry [
            | inl old ↦ omega (
              arith,
              sum_of-insert_old (λ t. t.bytes) key next_transfer t a.transfers old,
              r.room,
            )
            | inr (new, e, _) ↦ omega (
              arith,
              sum_of-insert_new (λ t. t.bytes) key next_transfer a.transfers new,
              ap (λ (t : Transfer). t.bytes) e,
              r.room,
            )
          ]

    abbrev OnTime : List Arriving → Type 0
    OnTime = All (λ c. c.1 < start + transfer_ttl)

    abbrev Missing : List (ℕ × Bytes) → List ℕ → Type 0
    Missing m is = All (λ i. (0 < i) × (i ≤ length parts) × (get i m ≡ none)) is

    Missing-put :
        (m : List (ℕ × Bytes)) (i : ℕ) (is : List ℕ)
        → All (λ j. i ≢ j) is
        → Missing m is
        → Missing (put i (part parts i) m) is
    Missing-put m i [] n h = tt
    Missing-put m i (j ∷ is) n h =
        ((h.0.0, h.0.1, get-put_ne i j (part parts i) m n.0 ∙ h.0.2), Missing-put m i is n.1 h.1)

    -- From a transfer that holds some of the chunks, the others complete it.
    feed-IsReady :
        (a : ChunkAssembler) (t : Transfer) (i now : ℕ) (order : List Arriving)
        → IsReady a t
        → (lookup key a.transfers ≡ none → now ≡ start)
        → Missing t.chunks (i ∷ numbers order)
        → Distinct (i ∷ numbers order)
        → OnTime ((i, now) ∷ order)
        → length t.chunks + suc (length order) ≡ length parts
        → ((feed key schema parts a ((i, now) ∷ order)).1
            ≡ replicate (length order) (ok none) ++ (ok (some (flatten parts)) ∷ []))
          × (lookup key (feed key schema parts a ((i, now) ∷ order)).0.transfers ≡ none)
    unfolding feed
    feed-IsReady a t i now [] r first m d early e =
        let full : length (put i (part parts i) t.chunks) ≡ length parts =
          omega (arith, length-put i (part parts i) t.chunks m.0.2) in
        let done = stored_some a t i now r m.0.0 m.0.1 m.0.2 early.0 first full in
        let whole = values-Selects (put-part-Selects t.chunks i r.selects m.0.0 m.0.1 m.0.2) full in
        rw (done, whole) (refl, lookup-remove_self key _)
    feed-IsReady a t i now ((j, then) ∷ order) r first m d early e =
        let left : length (put i (part parts i) t.chunks) ≢ length parts =
          omega (arith, length-put i (part parts i) t.chunks m.0.2) in
        let more = stored_none a t i now r m.0.0 m.0.1 m.0.2 early.0 first left in
        let t' = next_transfer a t i now r m.0.0 m.0.1 m.0.2 early.0 first in
        let rest =
          feed-IsReady (record a { transfers = put_entry key t' a.transfers }) t' j then order
            (extended-IsReady a t i now r m.0.0 m.0.1 m.0.2 early.0 first)
            (λ new. absurd (none_ne (sym new ∙ lookup-insert_self key t' a.transfers)))
            (Missing-put t.chunks i (j ∷ numbers order) d.0 m.1) d.1 early.1
            (omega (arith, length-put i (part parts i) t.chunks m.0.2)) in
        rw more (ap (◌∷◌ (ok none)) rest.0, rest.1)

  -- A payload of at most 4096 chunks and 16 MiB, of which the assembler holds nothing and for which
  -- it has room, is handed out whole with the last of its chunks, and only then, in whatever order
  -- the chunks arrive, and whenever each of them arrives within the 30 seconds from the first. Nothing is
  -- kept of it.
  pub feed_whole :
      (a : ChunkAssembler) (i : ℕ) (order : List Arriving)
      → lookup key a.transfers ≡ none
      → length a.transfers < max_transfers
      → retained_of a + length (flatten parts) ≤ max_retained_bytes
      → length (flatten parts) ≤ max_transfer_bytes
      → length parts ≤ max_chunks
      → All (λ k. (0 < k) × (k ≤ length parts)) (i ∷ numbers order)
      → Distinct (i ∷ numbers order)
      → All (λ c. c.1 < start + transfer_ttl) order
      → suc (length order) ≡ length parts
      → ((feed key schema parts a ((i, start) ∷ order)).1
          ≡ replicate (length order) (ok none) ++ (ok (some (flatten parts)) ∷ []))
        × (lookup key (feed key schema parts a ((i, start) ∷ order)).0.transfers ≡ none)
  unfolding get
  feed_whole a i order new few room small le range d early e =
      feed-IsReady (omega arith) le small a (new_transfer schema (length parts) start) i start order
        (record {
          same_schema = refl;
          same_total = refl;
          same_deadline = refl;
          selects = Selects-none 0 parts;
          counted = refl;
          room = omega arith;
          entry = inr (new, refl, few);
        })
        (λ h. refl) (all_missing (i ∷ numbers order) range) d (omega arith, early)
        (omega (arith, e))
    where
      all_missing :
          (is : List ℕ)
          → All (λ i. (0 < i) × (i ≤ length parts)) is
          → All (λ i. (0 < i) × (i ≤ length parts) × (get i [] ≡ none)) is
      all_missing [] h = tt
      all_missing (j ∷ js) h = ((h.0.0, h.0.1, refl), all_missing js h.1)
