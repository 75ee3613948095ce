-- ===== src/Garlic/Owned.antt =====
-- core/Garlic.cpp: a session with an owner, from `WrapSingleMessage` to the delivery status.
use i2pd.Prelude.{
  ℕ, ◌+◌, ◌^◌, ◌≤◌, ◌≡◌, refl, Bool, true, false, List, [], ◌∷◌, ◌++◌, Option, none, some,
  if◌then◌else◌, arith, length, All, length-append, Bool-cases, inl, inr,
}
use i2pd.I2np.{StoredLeaseSet, create_database_store_msg, database_store, reply_path}
use i2pd.Garlic.{Crypto, RoutingDestination}
use i2pd.Garlic.Wrap.{OwnerCall, clove_end}
use i2pd.Garlic.Cloves.{Clove, for_local, clove_bytes, IsMessage, IsClove, all_bytes}
use i2pd.Garlic.Blocks.{IsSound}
use i2pd.Garlic.Payload.{owner_cloves, message_clove}
use i2pd.Garlic.Status.{fill_header-IsMessage, length-clove_end}

-- Cloves that can be handled, few and short.
abbrev pub AreFit : ℕ → ℕ → List Clove → Type 0
AreFit count size cs = All IsClove cs × (length cs ≤ count) × (length (all_bytes cs) ≤ size)

AreFit-cons :
    (count size more : ℕ) (clove : Clove) (cs : List Clove)
    → IsClove clove
    → length (clove_bytes clove) ≤ more
    → AreFit count size cs
    → AreFit (1 + count) (more + size) (clove ∷ cs)
unfolding all_bytes
AreFit-cons count size more clove cs is short (are, few, small) = (
  (is, are),
  omega (arith, few),
  omega (arith, length-append (clove_bytes clove) (all_bytes cs), short, small),
)

AreFit-none : AreFit 0 0 []
unfolding all_bytes
AreFit-none = (tt, omega arith, omega arith)

module _ (status : Clove × List OwnerCall) (store : Clove) (last : Clove) (size : ℕ)
    (status_is : IsClove (status.0)) (status_size : length (clove_bytes (status.0)) ≤ 2 ^ 20)
    (store_is : IsClove store) (store_size : length (clove_bytes store) ≤ 2 ^ 20)
    (last_is : IsClove last) (last_size : length (clove_bytes last) ≤ size) where
  only_last : AreFit 1 size (last ∷ [])
  only_last =
      let alone = AreFit-cons 0 0 size last [] last_is last_size AreFit-none in
      (alone.0, omega (arith, alone.1), omega (arith, alone.2))

  with_store : AreFit 2 (2 ^ 20 + size) (store ∷ (last ∷ []))
  with_store = AreFit-cons 1 size (2 ^ 20) store (last ∷ []) store_is store_size only_last

  with_status : AreFit 2 (2 ^ 20 + size) (status.0 ∷ (last ∷ []))
  with_status = AreFit-cons 1 size (2 ^ 20) (status.0) (last ∷ []) status_is status_size only_last

  with_both : AreFit 3 (2 ^ 20 + (2 ^ 20 + size)) (status.0 ∷ (store ∷ (last ∷ [])))
  with_both =
      AreFit-cons 2 (2 ^ 20 + size) (2 ^ 20) (status.0) (store ∷ (last ∷ [])) status_is status_size
        with_store

  -- Whatever the session attaches for its owner, or without one.
  pub AreFit-sent :
      (has_owner confirms updates : Bool)
      → AreFit 3 (2 ^ 21 + size) (
          (if has_owner then owner_cloves confirms updates (some status) store else [])
          ++ (last ∷ []))
  AreFit-sent false confirms updates =
      (only_last.0, omega arith, let small = only_last.2 in omega (arith, small))
  AreFit-sent true false false =
      (only_last.0, omega arith, let small = only_last.2 in omega (arith, small))
  AreFit-sent true false true =
      (with_store.0, omega arith, let small = with_store.2 in omega (arith, small))
  AreFit-sent true true false =
      (with_status.0, omega arith, let small = with_status.2 in omega (arith, small))
  AreFit-sent true true true =
      (with_both.0, omega arith, let small = with_both.2 in omega (arith, small))

-- A destination whose hash has 32 bytes.
abbrev pub IsFar : Option RoutingDestination → Type 0
IsFar none = Unit
IsFar (some d) = length d.ident_hash ≡ 32

pub message_clove-IsClove :
    (id now : ℕ) (msg : List ℕ) (d : Option RoutingDestination)
    → IsFar d
    → IsMessage msg
    → IsClove (message_clove id now msg d)
      × (length (clove_bytes (message_clove id now msg d)) ≤ 48 + length msg)
message_clove-IsClove id now msg none far is = (
  (is, length-clove_end id now),
  omega (arith, length-append msg (clove_end id now), length-clove_end id now),
)
message_clove-IsClove id now msg (some d) far is = elim (Bool-cases d.is_destination) [
  | inl e ↦ rw e (
    (far, is, length-clove_end id now),
    omega (
      arith,
      far,
      length-append (d.ident_hash) (msg ++ clove_end id now),
      length-append msg (clove_end id now),
      length-clove_end id now,
    ),
  )
  | inr e ↦ rw e (
    (is, length-clove_end id now),
    omega (arith, length-append msg (clove_end id now), length-clove_end id now),
  )
]

length-reply_path : (leases : List (ℕ × List ℕ)) → length (reply_path 0 leases) ≡ 4
unfolding reply_path
length-reply_path [] = refl
length-reply_path (lease ∷ leases) = refl

module _ (c : Crypto) (sound : IsSound c) where
  -- The clove of a lease set of up to 60000 bytes.
  pub create_database_store_msg-IsClove :
      (ls : StoredLeaseSet) (clove_id random now : ℕ)
      → length ls.ident_hash + length ls.buffer ≤ 60000
      → let store =
          for_local (create_database_store_msg c.sha256 ls 0 random now) (clove_end clove_id now) in
        IsClove store × (length (clove_bytes store) ≤ 2 ^ 20)
  unfolding create_database_store_msg
  create_database_store_msg-IsClove ls clove_id random now small =
      let behind : List ℕ = reply_path 0 ls.non_expired_leases ++ ls.buffer in
      let payload = ls.ident_hash ++ (1 ∷ behind) in
      let size : length payload ≤ 60005 = omega (
        arith,
        length-append (ls.ident_hash) (1 ∷ behind),
        length-append (reply_path 0 ls.non_expired_leases) (ls.buffer),
        length-reply_path ls.non_expired_leases,
        small,
      ) in
      let filled =
        fill_header-IsMessage c sound database_store 0 random now payload (omega (arith, size)) in
      (
        (filled.0, length-clove_end clove_id now),
        omega (
          arith,
          length-append (create_database_store_msg c.sha256 ls 0 random now)
              (clove_end clove_id now),
          filled.1,
          size,
          length-clove_end clove_id now,
        ),
      )
