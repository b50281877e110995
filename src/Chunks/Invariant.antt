-- ===== src/Chunks/Invariant.antt =====
-- The budgets of the assembler hold in every state, and the subtractions from them never underflow.
use Prim.Native.Nat.{◌+◌, ◌-◌}
use unitree_webrtc_rs.Base.Dict.{
  HasDistinctKeys, insert-HasDistinctKeys, remove-HasDistinctKeys, Every, lookup, insert-Every,
  remove-Every, lookup-Every, length-insert, length-remove-le, sum_of, sum_of-insert_new,
  sum_of-insert_old, sum_of-remove-le, insert as put_entry, remove as drop_entry,
  remove-insert as drop_entry-insert,
}
use unitree_webrtc_rs.Base.{
  ℕ, ◌≤◌, ◌<◌, ◌≡◌, refl, sym, subst, ◌⊎◌, inl, inr, none, some, List, [], ◌∷◌, String, Bytes, ok,
  err, ltb, ◌==◌, length, arith, Bool-cases,
}
use unitree_webrtc_rs.Chunks.Entries.{get, put, size, Within, put-Within, length-put, size-put}
use unitree_webrtc_rs.Chunks.Branches.{IsInRange, Target, joined, begun, insert_checked-cases}
use unitree_webrtc_rs.Chunks.{
  Transfer, ChunkAssembler, Inserted, empty, remove, remove_all, expire, store, insert_checked,
  settle, insert, retained_of, max_chunks, max_transfer_bytes, max_transfers, max_retained_bytes,
}

-- A transfer that waits for more chunks.
pub record IsPending (t : Transfer) : Type 0 where
  pub in_range : Within 0 t.total t.chunks
  pub total_le : t.total ≤ max_chunks
  pub incomplete : length t.chunks < t.total
  pub counted : t.bytes ≡ size t.chunks
  pub within_budget : t.bytes ≤ max_transfer_bytes

pub record IsValid (a : ChunkAssembler) : Type 0 where
  pub few : length a.transfers ≤ max_transfers
  pub retained : retained_of a ≤ max_retained_bytes
  pub distinct : HasDistinctKeys a.transfers
  pub each : Every (λ _ t. IsPending t) a.transfers

pub empty-IsValid : IsValid empty
empty-IsValid = record { few = omega arith; retained = omega arith; distinct = tt; each = tt }

pub remove-IsValid : (a : ChunkAssembler) (key : String) → IsValid a → IsValid (remove a key)
unfolding remove
remove-IsValid a key v = record {
  few = omega (arith, length-remove-le key a.transfers, v.few);
  retained = omega (arith, sum_of-remove-le (λ t. t.bytes) key a.transfers, v.retained);
  distinct = remove-HasDistinctKeys key a.transfers v.distinct;
  each = remove-Every (λ _ t. IsPending t) key a.transfers v.each;
}

remove_all-IsValid :
    (a : ChunkAssembler) (keys : List String) → IsValid a → IsValid (remove_all a keys)
unfolding remove_all
remove_all-IsValid a [] v = v
remove_all-IsValid a (key ∷ keys) v =
    remove_all-IsValid (remove a key) keys (remove-IsValid a key v)

-- A sweep keeps the assembler within its budgets.
pub expire-IsValid : (a : ChunkAssembler) (now : ℕ) → IsValid a → IsValid (expire a now).0
unfolding expire
expire-IsValid a now v = remove_all-IsValid a _ v

-- What `store` may rely on: `t` is the entry of `key`, or a new one.
record Fits (a : ChunkAssembler) (key : String) (t : Transfer) (index total : ℕ) (bytes : Bytes)
    : Type 0 where
  pending : IsPending t
  same_total : t.total ≡ total
  from_one : 0 < index
  to_total : index ≤ total
  absent : get index t.chunks ≡ none
  budget : t.bytes + length bytes ≤ max_transfer_bytes
  entry :
      (lookup key a.transfers ≡ some t)
      ⊎ ((lookup key a.transfers ≡ none) × (t.bytes ≡ 0) × (length a.transfers < max_transfers))

abbrev extended : Transfer → ℕ → Bytes → Transfer
extended t index bytes = record t {
  bytes = t.bytes + length bytes;
  chunks = put index bytes t.chunks;
}

module _ (a : ChunkAssembler) (key : String) (t : Transfer) (index total : ℕ) (bytes : Bytes) where
  length-stored :
      IsValid a
      → Fits a key t index total bytes
      → length (put_entry key (extended t index bytes) a.transfers) ≤ max_transfers
  length-stored v f =
      ground (arith, length-insert key (extended t index bytes) a.transfers, f.entry)

  retained-stored :
      Fits a key t index total bytes
      → sum_of (λ t. t.bytes) (put_entry key (extended t index bytes) a.transfers)
        ≡ retained_of a + length bytes
  retained-stored f = elim f.entry [
    | inl old ↦
        omega
          (arith, sum_of-insert_old (λ t. t.bytes) key (extended t index bytes) t a.transfers old)
    | inr (new, zero_bytes, _) ↦
        omega (arith, sum_of-insert_new (λ t. t.bytes) key (extended t index bytes) a.transfers new)
  ]

  extended-IsPending :
      Fits a key t index total bytes
      → length (put index bytes t.chunks) < total
      → IsPending (extended t index bytes)
  extended-IsPending f h = record {
    in_range =
        put-Within index 0 t.total bytes t.chunks f.from_one
          (omega (arith, f.to_total, f.same_total)) f.pending.in_range;
    total_le = f.pending.total_le;
    incomplete = omega (arith, f.same_total);
    counted = omega (arith, size-put index bytes t.chunks f.absent, f.pending.counted);
    within_budget = f.budget;
  }

  stored-IsValid :
      IsValid a
      → Fits a key t index total bytes
      → retained_of a + length bytes ≤ max_retained_bytes
      → length (put index bytes t.chunks) < total
      → IsValid (record a { transfers = put_entry key (extended t index bytes) a.transfers })
  stored-IsValid v f r h = record {
    few = length-stored v f;
    retained = omega (arith, retained-stored f);
    distinct = insert-HasDistinctKeys key (extended t index bytes) a.transfers v.distinct;
    each =
        insert-Every (λ _ t. IsPending t) key (extended t index bytes) a.transfers
          (extended-IsPending f h) v.each;
  }

  -- A completed transfer is taken out, so that the others stand as they were.
  completed-IsValid :
      IsValid a
      → Fits a key t index total bytes
      → retained_of a + length bytes ≤ max_retained_bytes
      → IsValid (record a {
        transfers = drop_entry key (put_entry key (extended t index bytes) a.transfers);
      })
  completed-IsValid v f r = record {
    few = omega (
      arith,
      length-remove-le key (put_entry key (extended t index bytes) a.transfers),
      length-stored v f,
    );
    retained = omega (
      arith,
      sum_of-remove-le (λ t. t.bytes) key (put_entry key (extended t index bytes) a.transfers),
      retained-stored f,
    );
    distinct =
        rw (drop_entry-insert key (extended t index bytes) a.transfers)
          (remove-HasDistinctKeys key a.transfers v.distinct);
    each =
        rw (drop_entry-insert key (extended t index bytes) a.transfers)
          (remove-Every (λ _ t. IsPending t) key a.transfers v.each);
  }

  store-IsValid :
      IsValid a → Fits a key t index total bytes → IsValid (store a key t index total bytes).0
  unfolding store
  store-IsValid v f = elim (Bool-cases (ltb (max_retained_bytes - retained_of a) (length bytes))) [
    | inl over ↦ rw over v
    | inr within ↦
        let r : retained_of a + length bytes ≤ max_retained_bytes = ground (arith, v.retained) in
        elim (Bool-cases (length (put index bytes t.chunks) == total)) [
          | inl all ↦ rw (within, all) (completed-IsValid v f r)
          | inr some_left ↦
              rw (within, some_left)
                (stored-IsValid v f r (
                  ground (
                    arith,
                    length-put index bytes t.chunks f.absent,
                    f.pending.incomplete,
                    f.same_total,
                  )))
        ]
  ]

settle-IsValid : (key : String) (r : Inserted) → IsValid r.0 → IsValid (settle key r).0
unfolding settle
settle-IsValid key (a, ok r) v = v
settle-IsValid key (a, err e) v = remove-IsValid a key v

Target-Fits :
    (a : ChunkAssembler) (key schema : String) (index total : ℕ) (bytes : Bytes) (now : ℕ)
    (t : Transfer)
    → IsValid a
    → IsInRange a key schema index total bytes now
    → Target a key schema index total bytes now t
    → Fits a key t index total bytes
unfolding get
Target-Fits a key schema index total bytes now t v r (joined e accepts) =
    let pending = lookup-Every (λ _ t. IsPending t) key a.transfers t v.each e in
    record {
      pending = pending;
      same_total = accepts.same_total;
      from_one = r.index_pos;
      to_total = r.index_le;
      absent = accepts.absent;
      budget = omega (arith, accepts.budget, pending.within_budget);
      entry = inl e;
    }
Target-Fits a key schema index total bytes now t v r (begun e new few small) =
    subst (λ t. Fits a key t index total bytes) (sym new)
      (record {
        pending = record {
          in_range = tt;
          total_le = r.total_le;
          incomplete = r.total_pos;
          counted = refl;
          within_budget = omega arith;
        };
        same_total = refl;
        from_one = r.index_pos;
        to_total = r.index_le;
        absent = refl;
        budget = small';
        entry = inr (e, refl, few);
      })
  where
    small' : 0 + length bytes ≤ max_transfer_bytes
    small' = omega arith

insert_checked-IsValid :
    (a : ChunkAssembler) (key schema : String) (index total : ℕ) (bytes : Bytes) (now : ℕ)
    → IsValid a
    → IsValid (insert_checked a key schema index total bytes now).0
insert_checked-IsValid a key schema index total bytes now v =
    elim (insert_checked-cases a key schema index total bytes now) [
      | inl same ↦ subst (λ (r : Inserted). IsValid r.0) (sym same) v
      | inr (t, r, target, s) ↦
          subst (λ (r : Inserted). IsValid r.0) (sym s)
            (store-IsValid a key t index total bytes v
              (Target-Fits a key schema index total bytes now t v r target))
    ]

-- Every call keeps the assembler within its budgets: 64 transfers of at most 4096 chunks and 16 MiB,
-- and 64 MiB in all.
pub insert-IsValid :
    (a : ChunkAssembler) (key schema : String) (index total : ℕ) (bytes : Bytes) (now : ℕ)
    → IsValid a
    → IsValid (insert a key schema index total bytes now).0
unfolding insert
insert-IsValid a key schema index total bytes now v =
    settle-IsValid key (insert_checked a key schema index total bytes now)
      (insert_checked-IsValid a key schema index total bytes now v)
