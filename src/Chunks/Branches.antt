-- ===== src/Chunks/Branches.antt =====
-- The branches of `insert_checked`: it leaves the map alone, or it stores the chunk.
use Prim.Native.Nat.{◌+◌, ◌-◌}
use text.Mathlib.TextEquality.{eq_iff}
use unitree_webrtc_rs.Base.Dict.{lookup}
use unitree_webrtc_rs.Base.{
  ℕ, ◌≤◌, ◌<◌, ◌≡◌, refl, ◌∙◌, ◌⊎◌, inl, inr, none, some, [], String, Bytes, length, arith,
  Option-cases,
}
use unitree_webrtc_rs.Chunks.Entries.{get}
use unitree_webrtc_rs.Chunks.{
  Transfer, ChunkAssembler, store, join_transfer, begin_transfer, insert_checked, max_chunks,
  max_transfer_bytes, max_transfers, transfer_ttl,
}

abbrev pub new_transfer : String → ℕ → ℕ → Transfer
new_transfer schema total now = record {
  schema = schema;
  total = total;
  chunks = [];
  bytes = 0;
  deadline = now + transfer_ttl;
}

module _ (a : ChunkAssembler) (key schema : String) (index total : ℕ) (bytes : Bytes)
    (now : ℕ) where
  -- The state of a transfer to which the chunk may be added.
  pub record Accepts (t : Transfer) : Type 0 where
    pub open_until : now < t.deadline
    pub same_schema : t.schema ≡ schema
    pub same_total : t.total ≡ total
    pub absent : get index t.chunks ≡ none
    pub budget : length bytes ≤ max_transfer_bytes - t.bytes

  pub record IsInRange : Type 0 where
    pub total_pos : 0 < total
    pub total_le : total ≤ max_chunks
    pub index_pos : 0 < index
    pub index_le : index ≤ total

  pub join_transfer-cases :
      (t : Transfer)
      → (join_transfer a key t schema index total bytes now
          ≡ (a, (join_transfer a key t schema index total bytes now).1))
        ⊎ (Accepts t
            × (join_transfer a key t schema index total bytes now
                ≡ store a key t index total bytes))
  unfolding join_transfer
  join_transfer-cases t = ground (arith, eq_iff t.schema schema)

  pub begin_transfer-cases :
      (begin_transfer a key schema index total bytes now
        ≡ (a, (begin_transfer a key schema index total bytes now).1))
      ⊎ ((length a.transfers < max_transfers)
          × (length bytes ≤ max_transfer_bytes)
          × (begin_transfer a key schema index total bytes now
              ≡ store a key (new_transfer schema total now) index total bytes))
  unfolding begin_transfer
  begin_transfer-cases = ground arith

  -- What the chunk is stored in: the transfer under the key, or a new one.
  pub data Target (t : Transfer) : Type 0 where
    joined : lookup key a.transfers ≡ some t → Accepts t → Target t
    begun :
        lookup key a.transfers ≡ none
        → t ≡ new_transfer schema total now
        → length a.transfers < max_transfers
        → length bytes ≤ max_transfer_bytes
        → Target t

  abbrev pub Checked : Type 0
  Checked =
      (insert_checked a key schema index total bytes now
        ≡ (a, (insert_checked a key schema index total bytes now).1))
      ⊎ ((t : Transfer) × IsInRange
          × Target t
          × (insert_checked a key schema index total bytes now ≡ store a key t index total bytes))

  in_range-cases :
      IsInRange
      ⊎ (insert_checked a key schema index total bytes now
          ≡ (a, (insert_checked a key schema index total bytes now).1))
  unfolding insert_checked
  in_range-cases = ground arith

  insert_checked_old :
      (t : Transfer)
      → IsInRange
      → lookup key a.transfers ≡ some t
      → insert_checked a key schema index total bytes now
        ≡ join_transfer a key t schema index total bytes now
  unfolding insert_checked
  insert_checked_old t r e = ground arith

  insert_checked_new :
      IsInRange
      → lookup key a.transfers ≡ none
      → insert_checked a key schema index total bytes now
        ≡ begin_transfer a key schema index total bytes now
  unfolding insert_checked
  insert_checked_new r e = ground arith

  pub insert_checked-cases : Checked
  insert_checked-cases = elim in_range-cases [
    | inr out ↦ inl out
    | inl r ↦ elim (Option-cases (lookup key a.transfers)) [
      | inr (t, e) ↦ elim (join_transfer-cases t) [
        | inl same ↦ inl (rw (insert_checked_old t r e) same)
        | inr (accepts, s) ↦ inr (t, r, joined e accepts, insert_checked_old t r e ∙ s)
      ]
      | inl e ↦ elim begin_transfer-cases [
        | inl same ↦ inl (rw (insert_checked_new r e) same)
        | inr (few, small, s) ↦
            inr
              (new_transfer schema total now, r, begun e refl few small, insert_checked_new r e ∙ s)
      ]
    ]
  ]
