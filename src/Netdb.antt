-- ===== src/Netdb.antt =====
-- core/NetworkDatabase.cpp: the answer of a floodfill to a database lookup. What the database holds is asked of
-- the functions that search it.
pub mod Replies
pub mod Answers
mod Tests
use i2pd.Prelude.{
  ℕ, zero, suc, ◌+◌, ◌*◌, ◌/◌, ◌%◌, Bool, true, false, not, ◌&&◌, ◌||◌, List, [], ◌∷◌, ◌++◌, Option,
  none, some, ltb, ◌==◌, if◌then◌else◌, drop,
}
use i2pd.Prelude.Chain.{and_then}
use i2pd.I2np.{StoredLeaseSet, create_database_store_msg}
use i2pd.I2np.Lookup.{create_database_search_reply}
use i2pd.Garlic.{Crypto}
use i2pd.Garlic.Receive.{read, read_byte, read_be16, read_be32}
use i2pd.Garlic.Wrap.{Clock, Draws}
use i2pd.Garlic.Single.{wrap_one_time}

-- A lookup as it is read; `excluded` is the memory from the first excluded peer on.
pub record Lookup : Type 0 where
  pub ident : List ℕ
  pub flag : ℕ
  pub reply_tunnel_id : ℕ
  pub num_excluded : ℕ
  pub excluded : List ℕ

unfoldable pub read_excluded : List ℕ → ℕ → ℕ → List ℕ → Option Lookup
read_excluded ident flag reply_tunnel_id bytes = and_then (read_be16 bytes) (λ count. some (record {
  ident = ident;
  flag = flag;
  reply_tunnel_id = reply_tunnel_id;
  num_excluded = if ltb 512 count.0 then 0 else count.0;
  excluded = count.1;
}))

-- The fields of a lookup as `HandleDatabaseLookupMsg` reads them; `buf` is the memory from the payload on.
unfoldable pub read_lookup : List ℕ → Option Lookup
read_lookup buf = and_then (read 32 buf) (λ ident. and_then (read_byte (drop 32 ident.1)) (λ flag.
    if flag.0 % 2 == 1
    then and_then (read_be32 (drop 64 buf))
        (λ tunnel. read_excluded ident.0 flag.0 tunnel.0 (drop 4 flag.1))
    else read_excluded ident.0 flag.0 0 flag.1))

unfoldable pub is_zero : List ℕ → Bool
is_zero [] = true
is_zero (x ∷ xs) = x == 0 && is_zero xs

-- The hashes of the excluded peers, and the memory behind them.
unfoldable pub read_hashes : ℕ → List ℕ → Option (List (List ℕ) × List ℕ)
read_hashes zero bytes = some ([], bytes)
read_hashes (suc n) bytes =
    and_then (read 32 bytes)
      (λ first. and_then (read_hashes n first.1) (λ others. some (first.0 ∷ others.0, others.1)))

-- What the database is asked: a router's DatabaseStore message, if it has the router and its info, a lease set,
-- the closest router that is no floodfill, and the closest floodfills; and the router's own hash.
pub record Database : Type 0 where
  pub router_store_msg : List ℕ → Option (List ℕ)
  pub find_lease_set : List ℕ → Option StoredLeaseSet
  pub closest_non_floodfill : List ℕ → List (List ℕ) → Option (List ℕ)
  pub closest_floodfills : List ℕ → ℕ → List (List ℕ) → List (List ℕ)
  pub own_ident : List ℕ

-- The routers for an exploratory lookup, each of them excluded for the next.
unfoldable pub explore : Database → ℕ → List ℕ → List (List ℕ) → List (List ℕ)
explore db zero ident excluded = []
explore db (suc n) ident excluded = elim (db.closest_non_floodfill ident excluded) [
  | none ↦ explore db n ident excluded
  | some router ↦ router ∷ explore db n ident (excluded ++ (router ∷ []))
]

module _ (db : Database) (sha256 : List ℕ → List ℕ) (random now : ℕ) where
  -- A search reply, and the memory behind the excluded peers.
  unfoldable pub search_reply : Lookup → (List (List ℕ) → List (List ℕ)) → Option (List ℕ × List ℕ)
  search_reply l closest = and_then (read_hashes l.num_excluded l.excluded) (λ hashes. some (
    create_database_search_reply sha256 random now l.ident (closest hashes.0) db.own_ident,
    hashes.1,
  ))

  -- What is found, or not: then the closest floodfills are named.
  unfoldable pub found_or_closest : Lookup → Option (List ℕ) → Option (List ℕ × List ℕ)
  found_or_closest l (some msg) = some (msg, l.excluded)
  found_or_closest l none = search_reply l (db.closest_floodfills l.ident 3)

  unfoldable pub stored_lease_set : Option StoredLeaseSet → Option (List ℕ)
  stored_lease_set none = none
  stored_lease_set (some ls) = some (create_database_store_msg sha256 ls 0 random now)

  unfoldable pub router_or_lease_set : ℕ → List ℕ → Option (List ℕ) → Option (List ℕ)
  router_or_lease_set type ident (some msg) = some msg
  router_or_lease_set type ident none =
      if type == 4 || type == 0 then stored_lease_set (db.find_lease_set ident) else none

  -- The reply, and how far the memory was read: `excluded` where it is left.
  unfoldable pub make_reply : Lookup → Option (List ℕ × List ℕ)
  make_reply l =
      let type = l.flag / 4 % 4 * 4 in
      if type == 12
      then search_reply l (explore db 3 l.ident)
      else found_or_closest l (
          router_or_lease_set type l.ident
            (if type == 8 || type == 0 then db.router_store_msg l.ident else none))

-- The key and tag that a reply is encrypted with; `none` inside where the lookup names no tag.
unfoldable pub reply_keys : List ℕ → Option (Option (List ℕ × List ℕ))
reply_keys bytes = and_then (read 32 bytes) (λ key. and_then (read_byte key.1) (λ num_tags.
    if num_tags.0 == 0
    then some none
    else and_then (read 32 num_tags.1) (λ tag. some (some (key.0, tag.0)))))

-- Where a reply goes: to a router, or to a tunnel's gateway, through an outbound tunnel or straight. A reply whose
-- pointer is null has no bytes.
pub data Sent : Type 0 where
  to_router : List ℕ → List ℕ → Sent
  to_tunnel : Bool → List ℕ → ℕ → Option (List ℕ) → Sent

module _ (c : Crypto) (clock : Clock) (draws : Draws) (garbage : ℕ) where
  unfoldable pub with_keys : List ℕ → Option (List ℕ × List ℕ) → Option (List ℕ)
  with_keys msg none = some msg
  with_keys msg (some (key, tag)) = (wrap_one_time c clock draws garbage key tag msg).message

  -- The reply on its way through a tunnel, encrypted if that was asked for.
  unfoldable pub encrypted : Lookup → List ℕ → List ℕ → Option (Option (List ℕ))
  encrypted l msg bytes =
      if l.flag / 2 % 2 == 1
      then and_then (reply_keys bytes) (λ keys. some (with_keys msg keys))
      else some (some msg)

  -- `HandleDatabaseLookupMsg`: what is sent; no result where it reads behind the memory.
  unfoldable pub handle_database_lookup_msg : Database → Bool → ℕ → List ℕ → Option (Option Sent)
  handle_database_lookup_msg db outbound random buf = and_then (read 32 buf) (λ ident.
      if is_zero ident.0
      then some none
      else and_then (read_lookup buf) (λ l.
        and_then (make_reply db c.sha256 random clock.milliseconds l) (λ reply.
          and_then (read 32 (drop 32 buf)) (λ from.
            if l.reply_tunnel_id == 0
            then some (some (to_router from.0 reply.0))
            else and_then (encrypted l reply.0 reply.1)
                (λ msg. some (some (to_tunnel outbound from.0 l.reply_tunnel_id msg)))))))
