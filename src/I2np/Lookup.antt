-- ===== src/I2np/Lookup.antt =====
-- core/I2NPProtocol.cpp: the messages that ask a floodfill for a router or a lease set, and its answer that it has
-- neither.
use i2pd.Prelude.{
  ℕ, ◌+◌, ◌%◌, Bool, List, [], ◌∷◌, ◌++◌, Option, none, some, ◌==◌, if◌then◌else◌, length,
}
use i2pd.Prelude.Bytes.{be16, be32}
use i2pd.I2np.{fill_header, database_lookup, database_search_reply}

abbrev pub database_lookup_delivery_flag : ℕ
database_lookup_delivery_flag = 1

abbrev pub database_lookup_encyption_flag : ℕ
database_lookup_encyption_flag = 2

abbrev pub lease_set_lookup : ℕ
lease_set_lookup = 4

abbrev pub router_info_lookup : ℕ
router_info_lookup = 8

abbrev pub exploratory_lookup : ℕ
exploratory_lookup = 12

abbrev pub hashes_bytes : List (List ℕ) → List ℕ
hashes_bytes [] = []
hashes_bytes (h ∷ hs) = h ++ hashes_bytes hs

-- The excluded peers: their number and their hashes, in the set's order.
abbrev pub excluded_bytes : List (List ℕ) → List ℕ
excluded_bytes peers = be16 (length peers) ++ hashes_bytes peers

unfoldable pub excluded_or_none : Option (List (List ℕ)) → List (List ℕ)
excluded_or_none none = []
excluded_or_none (some peers) = peers

-- The payload of `CreateRouterInfoDatabaseLookupMsg`.
unfoldable pub router_info_lookup_payload :
    List ℕ → List ℕ → ℕ → Bool → Option (List (List ℕ)) → List ℕ
router_info_lookup_payload key from reply_tunnel_id exploratory excluded =
    let flag = if exploratory then exploratory_lookup else router_info_lookup in
    let reply : List ℕ =
      if reply_tunnel_id == 0
      then flag ∷ []
      else (flag + database_lookup_delivery_flag) ∷ be32 reply_tunnel_id in
    key ++ (from ++ (reply ++ excluded_bytes (excluded_or_none excluded)))

-- The payload of `CreateLeaseSetDatabaseLookupMsg`; the reply tunnel is given by its first hop's hash and id.
unfoldable pub lease_set_lookup_payload :
    List ℕ → List (List ℕ) → List ℕ → ℕ → List ℕ → List ℕ → List ℕ
lease_set_lookup_payload dest excluded tunnel_hash tunnel_id reply_key reply_tag =
    dest
    ++ (tunnel_hash
        ++ ((database_lookup_delivery_flag + database_lookup_encyption_flag + lease_set_lookup)
            ∷ (be32 tunnel_id ++ (excluded_bytes excluded ++ (reply_key ++ (1 ∷ reply_tag))))))

module _ (sha256 : List ℕ → List ℕ) (random now : ℕ) where
  -- `CreateRouterInfoDatabaseLookupMsg`
  unfoldable pub create_router_info_database_lookup_msg :
      List ℕ → List ℕ → ℕ → Bool → Option (List (List ℕ)) → List ℕ
  create_router_info_database_lookup_msg key from reply_tunnel_id exploratory excluded =
      fill_header sha256 database_lookup 0 random now
        (router_info_lookup_payload key from reply_tunnel_id exploratory excluded)

  -- `CreateLeaseSetDatabaseLookupMsg`
  unfoldable pub create_lease_set_database_lookup_msg :
      List ℕ → List (List ℕ) → List ℕ → ℕ → List ℕ → List ℕ → List ℕ
  create_lease_set_database_lookup_msg dest excluded tunnel_hash tunnel_id reply_key reply_tag =
      fill_header sha256 database_lookup 0 random now
        (lease_set_lookup_payload dest excluded tunnel_hash tunnel_id reply_key reply_tag)

  -- `CreateDatabaseSearchReply`, signed with the own router's hash.
  unfoldable pub create_database_search_reply : List ℕ → List (List ℕ) → List ℕ → List ℕ
  create_database_search_reply ident routers own =
      fill_header sha256 database_search_reply 0 random now
        (ident ++ (length routers % 256 ∷ (hashes_bytes routers ++ own)))
