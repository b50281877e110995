-- ===== src/Chunks/Isolation.antt =====
-- What a call leaves alone, and what an error discards.
use text.Mathlib.Text.{◌==◌ as str_eq}
use unitree_webrtc_rs.Base.Dict.{
  lookup, lookup-insert, lookup-remove, lookup-remove_self, insert as put_entry,
}
use unitree_webrtc_rs.Base.{
  ℕ, ◌+◌, ◌≡◌, refl, sym, subst, inl, inr, false, none, String, Bytes, ok, err, length, arith,
}
use unitree_webrtc_rs.Chunks.Branches.{insert_checked-cases}
use unitree_webrtc_rs.Chunks.Entries.{put}
use unitree_webrtc_rs.Chunks.{
  Transfer, ChunkAssembler, Inserted, remove, store, insert_checked, settle, insert,
}

-- The same transfers under every key but `key`.
abbrev pub SameElsewhere : String → ChunkAssembler → ChunkAssembler → Type 0
SameElsewhere key a b =
    (j : String) → str_eq key j ≡ false → lookup j b.transfers ≡ lookup j a.transfers

store-SameElsewhere :
    (a : ChunkAssembler) (key : String) (t : Transfer) (index total : ℕ) (bytes : Bytes)
    → SameElsewhere key a (store a key t index total bytes).0
unfolding store
store-SameElsewhere a key t index total bytes j h =
    let t' : Transfer = record t {
      bytes = t.bytes + length bytes;
      chunks = put index bytes t.chunks;
    } in
    ground (
      arith,
      lookup-insert key j t' a.transfers,
      lookup-remove key j (put_entry key t' a.transfers),
    )

insert_checked-SameElsewhere :
    (a : ChunkAssembler) (key schema : String) (index total : ℕ) (bytes : Bytes) (now : ℕ)
    → SameElsewhere key a (insert_checked a key schema index total bytes now).0
insert_checked-SameElsewhere a key schema index total bytes now =
    elim (insert_checked-cases a key schema index total bytes now) [
      | inl same ↦ subst (λ (r : Inserted). SameElsewhere key a r.0) (sym same) (λ j h. refl)
      | inr (t, r, target, s) ↦
          subst (λ (r : Inserted). SameElsewhere key a r.0) (sym s)
            (store-SameElsewhere a key t index total bytes)
    ]

settle-SameElsewhere :
    (a : ChunkAssembler) (key : String) (r : Inserted)
    → SameElsewhere key a r.0
    → SameElsewhere key a (settle key r).0
unfolding settle remove
settle-SameElsewhere a key (b, ok r) s j h = s j h
settle-SameElsewhere a key (b, err e) s j h = ground (arith, lookup-remove key j b.transfers, s j h)

-- No call touches the transfer of another key, whatever its result.
pub insert-SameElsewhere :
    (a : ChunkAssembler) (key schema : String) (index total : ℕ) (bytes : Bytes) (now : ℕ)
    (j : String)
    → str_eq key j ≡ false
    → lookup j (insert a key schema index total bytes now).0.transfers ≡ lookup j a.transfers
unfolding insert
insert-SameElsewhere a key schema index total bytes now =
    settle-SameElsewhere a key _ (insert_checked-SameElsewhere a key schema index total bytes now)

settle_err :
    (key : String) (r : Inserted) (e : String)
    → (settle key r).1 ≡ err e
    → lookup key (settle key r).0.transfers ≡ none
unfolding settle remove
settle_err key (a, ok r) e h = cc
settle_err key (a, err f) e h = lookup-remove_self key a.transfers

-- After an error nothing is kept under the key, and the other transfers stand as they were.
pub insert_err :
    (a : ChunkAssembler) (key schema : String) (index total : ℕ) (bytes : Bytes) (now : ℕ)
    (e : String)
    → (insert a key schema index total bytes now).1 ≡ err e
    → (lookup key (insert a key schema index total bytes now).0.transfers ≡ none)
      × SameElsewhere key a (insert a key schema index total bytes now).0
insert_err a key schema index total bytes now e h = (
  unfold insert in settle_err key (insert_checked a key schema index total bytes now) e h,
  insert-SameElsewhere a key schema index total bytes now,
)
