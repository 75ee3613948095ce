-- ===== src/Socks.antt =====
-- client/SOCKS.cpp: the handler of one SOCKS4a or SOCKS5 client. The bytes that it writes to the
-- socket are logged in `sent`; the union `address` is kept as one field for each member, read by
-- the tag `addrtype` as the code does.
pub mod Invariant
pub mod Handshake
mod Tests
use i2pd.Prelude.{
  ℕ, zero, suc, ◌+◌, ◌-◌, ◌*◌, ◌/◌, ◌%◌, ◌^◌, Bool, true, false, not, ◌&&◌, ◌||◌, List, [], ◌∷◌,
  ◌++◌, ltb, leb, ◌==◌, if◌then◌else◌, length, set, take, replicate,
}
use i2pd.Prelude.Bytes.{codes, be16, be32}

pub data State : Type 0 where
  get_socksv get_command get_port get_ipv4 get4_ident get4a_host : State
  get5_authnum get5_auth get5_requestv get5_getrsv get5_getaddrtype : State
  get5_ipv6 get5_host_size get5_host done : State

pub data AddrType : Type 0 where
  addr_ipv4 addr_dns addr_ipv6 : AddrType

-- `enum errTypes` and the other enumerations, by their numbers.
abbrev pub socks5_gen_fail : ℕ
socks5_gen_fail = 1

abbrev pub socks5_host_unreach : ℕ
socks5_host_unreach = 4

abbrev pub socks5_cmd_unsup : ℕ
socks5_cmd_unsup = 7

abbrev pub socks5_addr_unsup : ℕ
socks5_addr_unsup = 8

abbrev pub socks4_ok : ℕ
socks4_ok = 90

abbrev pub socks4_fail : ℕ
socks4_fail = 91

abbrev pub auth_unacceptable : ℕ
auth_unacceptable = 0xff

abbrev pub cmd_connect : ℕ
cmd_connect = 1

abbrev pub max_socks_hostname_size : ℕ
max_socks_hostname_size = 255

abbrev pub addr_code : AddrType → ℕ
addr_code addr_ipv4 = 1
addr_code addr_dns = 3
addr_code addr_ipv6 = 4

abbrev pub is_dns : AddrType → Bool
is_dns addr_dns = true
is_dns _ = false

abbrev pub is_done : State → Bool
is_done done = true
is_done _ = false

-- `dns` is `value[0 .. size)`.
pub record Handler : Type 0 where
  pub state : State
  pub socksv : ℕ
  pub parseleft : ℕ
  pub authchosen : ℕ
  pub addrtype : AddrType
  pub cmd : ℕ
  pub port : ℕ
  pub ip4a : ℕ
  pub ip : ℕ
  pub dns : List ℕ
  pub ipv6 : List ℕ
  pub remaining : List ℕ
  pub sent : List (List ℕ)
  pub closed : Bool

-- `next`: the handler goes on; `stop`: `HandleData` returns false; `fault`: a failed assertion, or a
-- write past the end of a buffer.
pub data Step : Type 0 where
  next : Handler → Step
  stop : Handler → Step
  fault : Step

infixl 5 ◌>>=◌
abbrev pub ◌>>=◌ : Step → (Handler → Step) → Step
next h >>= f = f h
stop h >>= f = stop h
fault >>= f = fault

unfoldable pub generate_socks4_response : ℕ → ℕ → ℕ → List ℕ
generate_socks4_response error ip port = 0 ∷ error ∷ be16 port ++ be32 ip

abbrev response_address : AddrType → Handler → List ℕ
response_address addr_ipv4 h = be32 h.ip
response_address addr_ipv6 h = h.ipv6
response_address addr_dns h = length h.dns ∷ h.dns

-- The address and the port that go into the answer are those of the handler passed in.
unfoldable pub generate_socks5_response : ℕ → AddrType → Handler → ℕ → List ℕ
generate_socks5_response error type h port =
    5 ∷ error ∷ 0 ∷ addr_code type ∷ response_address type h ++ be16 port

abbrev pub send : List ℕ → Handler → Handler
send bytes h = record h { sent = h.sent ++ bytes ∷ [] }

-- `Terminate`
unfoldable pub terminate : Handler → Handler
terminate h = record h { closed = true }

-- `SocksRequestFailed`: the assertions refuse an OK code, and a SOCKS5 answer beyond 8.
unfoldable pub socks_request_failed : ℕ → Handler → Step
unfolding generate_socks4_response generate_socks5_response
socks_request_failed error h =
    if error == socks4_ok || error == 0
    then fault
    else (if h.socksv == 4
        then (let code = if ltb error socks4_ok then socks4_fail else error in
            stop (send (generate_socks4_response code h.ip4a h.port) h))
        else (if h.socksv == 5
            then (if leb error socks5_addr_unsup
                then stop (send (generate_socks5_response error h.addrtype h h.port) h)
                else fault)
            else stop (send [] h)))

-- `SocksRequestSuccess`: `name` is what the address book calls the local destination, and
-- `stream_id` the stream's receive id, cut to 16 bits.
unfoldable pub socks_request_success : List ℕ → ℕ → Handler → Handler
unfolding generate_socks4_response generate_socks5_response
socks_request_success name stream_id h =
    if h.socksv == 4
    then send (generate_socks4_response socks4_ok h.ip4a h.port) h
    else (if h.socksv == 5
        then send
            (generate_socks5_response 0 addr_dns
              (record h { dns = take max_socks_hostname_size name }) (stream_id % 2 ^ 16))
            h
        else send [] h)

-- `Socks5ChooseAuth`
unfoldable pub socks5_choose_auth : Handler → Step
socks5_choose_auth h =
    let h' = send (5 ∷ h.authchosen ∷ []) h in
    if h.authchosen == auth_unacceptable then stop h' else next h'

-- `EnterState`, with the default of its last argument written out by the callers.
unfoldable pub enter_state : State → ℕ → Handler → Handler
enter_state get_port left h = record h { state = get_port; parseleft = 2 }
enter_state get_ipv4 left h = record h {
  state = get_ipv4;
  parseleft = 4;
  addrtype = addr_ipv4;
  ip = 0;
}
enter_state get4_ident left h = record h { state = get4_ident; parseleft = left; ip4a = h.ip }
enter_state get4a_host left h = record h {
  state = get4a_host;
  parseleft = left;
  addrtype = addr_dns;
  dns = [];
}
enter_state get5_host left h = record h {
  state = get5_host;
  parseleft = left;
  addrtype = addr_dns;
  dns = [];
}
enter_state get5_ipv6 left h = record h { state = get5_ipv6; parseleft = 16; addrtype = addr_ipv6 }
enter_state s left h = record h { state = s; parseleft = left }

-- `m_parseleft--` on a uint8_t.
abbrev pub decrement : ℕ → ℕ
decrement n = (n + 255) % 256

-- `SOCKSDnsAddress::push_back`: `value` has 255 places.
unfoldable pub push_back : ℕ → Handler → Step
push_back c h =
    if ltb (length h.dns) max_socks_hostname_size
    then next (record h { dns = h.dns ++ c ∷ [] })
    else fault

-- One round of the loop of `HandleData`: the `switch` on the state, at the byte `b`.
unfoldable pub handle_byte : State → ℕ → Handler → Step
unfolding enter_state terminate socks_request_failed socks5_choose_auth push_back
handle_byte get_socksv b h =
    let h' = record h { socksv = b } in
    if b == 4
    then next (enter_state get_command 1 h')
    else (if b == 5 then next (enter_state get5_authnum 1 h') else stop (terminate h'))
handle_byte get5_authnum b h = next (enter_state get5_auth b h)
handle_byte get5_auth b h =
    let chosen = if b == 0 then 0 else h.authchosen in
    let h' = record h { parseleft = decrement h.parseleft; authchosen = chosen } in
    if h'.parseleft == 0
    then (socks5_choose_auth h' >>= λ h''. next (enter_state get5_requestv 1 h''))
    else next h'
handle_byte get_command b h =
    if b == 1 || b == 2 || (b == 3 && h.socksv == 5)
    then (let h' = record h { cmd = b } in
        if h.socksv == 5
        then next (enter_state get5_getrsv 1 h')
        else (if h.socksv == 4 then next (enter_state get_port 1 h') else next h'))
    else socks_request_failed socks5_gen_fail h
handle_byte get_port b h =
    let h' = record h { port = (h.port * 256 + b) % 2 ^ 16; parseleft = decrement h.parseleft } in
    if h'.parseleft == 0
    then (if h.socksv == 5
        then next (enter_state done 1 h')
        else (if h.socksv == 4 then next (enter_state get_ipv4 1 h') else next h'))
    else next h'
handle_byte get_ipv4 b h =
    let h' = record h { ip = (h.ip * 256 + b) % 2 ^ 32; parseleft = decrement h.parseleft } in
    if h'.parseleft == 0
    then (if h.socksv == 5
        then next (enter_state get_port 1 h')
        else (if h.socksv == 4
            then next (record (enter_state get4_ident 1 h') { ip4a = h'.ip })
            else next h'))
    else next h'
handle_byte get4_ident b h =
    if b == 0
    then (if h.ip4a == 0 || ltb 255 h.ip4a
        then next (enter_state done 1 h)
        else next (enter_state get4a_host 1 h))
    else next h
handle_byte get4a_host b h =
    if b == 0
    then next (enter_state done 1 h)
    else (if leb max_socks_hostname_size (length h.dns)
        then socks_request_failed socks4_fail h
        else push_back b h)
handle_byte get5_requestv b h =
    if b == 5 then next (enter_state get_command 1 h) else socks_request_failed socks5_gen_fail h
handle_byte get5_getrsv b h =
    if b == 0
    then next (enter_state get5_getaddrtype 1 h)
    else socks_request_failed socks5_gen_fail h
handle_byte get5_getaddrtype b h =
    if b == 1
    then next (enter_state get_ipv4 1 h)
    else (if b == 4
        then next (enter_state get5_ipv6 1 h)
        else (if b == 3
            then next (enter_state get5_host_size 1 h)
            else socks_request_failed socks5_gen_fail h))
handle_byte get5_ipv6 b h =
    let h' = record h {
      ipv6 = set h.ipv6 (16 - h.parseleft) b;
      parseleft = decrement h.parseleft;
    } in
    if h'.parseleft == 0 then next (enter_state get_port 1 h') else next h'
handle_byte get5_host_size b h = next (enter_state get5_host b h)
handle_byte get5_host b h = push_back b h >>= λ h₁.
    let h' = record h₁ { parseleft = decrement h₁.parseleft } in
    if h'.parseleft == 0 then next (enter_state get_port 1 h') else next h'
handle_byte done b h = stop (terminate h)

-- `find (".i2p") != npos`
abbrev is_prefix : List ℕ → List ℕ → Bool
is_prefix [] ys = true
is_prefix (x ∷ xs) [] = false
is_prefix (x ∷ xs) (y ∷ ys) = x == y && is_prefix xs ys

unfoldable pub has_i2p : List ℕ → Bool
has_i2p [] = false
has_i2p (c ∷ cs) = is_prefix (codes ".i2p") (c ∷ cs) || has_i2p cs

-- `ValidateSOCKSRequest`
unfoldable pub validate_socks_request : Handler → Step
unfolding socks_request_failed has_i2p
validate_socks_request h =
    if not (h.cmd == cmd_connect)
    then socks_request_failed socks5_cmd_unsup h
    else (if not (is_dns h.addrtype)
        then socks_request_failed socks5_addr_unsup h
        else (if is_dns h.addrtype && not (has_i2p h.dns)
            then socks_request_failed socks5_addr_unsup h
            else next h))

-- The loop of `HandleData` over the bytes received.
unfoldable pub handle_bytes : List ℕ → Handler → Step
handle_bytes [] h = next h
handle_bytes (b ∷ bs) h = elim (handle_byte h.state b h) [
  | next h' ↦ elim (is_done h'.state) [
    | true ↦ validate_socks_request (record h' { remaining = bs })
    | false ↦ handle_bytes bs h'
  ]
  | stop h' ↦ stop h'
  | fault ↦ fault
]

-- `HandleData`, with its assertion that something was received.
unfoldable pub handle_data : List ℕ → Handler → Step
handle_data [] h = fault
handle_data (b ∷ bs) h = handle_bytes (b ∷ bs) h

-- What `HandleSockRecv` starts next: a further read, or a stream to the host and port requested.
pub data Action : Type 0 where
  read : Handler → Action
  create_stream : List ℕ → ℕ → Handler → Action
  idle : Handler → Action
  broken : Action

abbrev after_data : Step → Action
after_data (next h) = if is_done h.state then create_stream h.dns h.port h else read h
after_data (stop h) = idle h
after_data fault = broken

unfoldable pub handle_sock_recv : Bool → List ℕ → Handler → Action
handle_sock_recv true bytes h = idle (terminate h)
handle_sock_recv false bytes h = after_data (handle_data bytes h)

-- `HandleStreamRequestComplete`: a stream with its receive id, or none.
unfoldable pub handle_stream_request_complete : Bool → List ℕ → ℕ → Handler → Step
unfolding socks_request_success socks_request_failed
handle_stream_request_complete true name stream_id h = next (socks_request_success name stream_id h)
handle_stream_request_complete false name stream_id h = socks_request_failed socks5_host_unreach h

-- The constructor: the members that it leaves uninitialised are its arguments.
unfoldable pub init : ℕ → ℕ → ℕ → List ℕ → Handler
unfolding enter_state
init socksv cmd port ipv6 = enter_state get_socksv 1 (record {
  state = get_socksv;
  socksv = socksv;
  parseleft = 1;
  authchosen = auth_unacceptable;
  addrtype = addr_ipv4;
  cmd = cmd;
  port = port;
  ip4a = 0;
  ip = 0;
  dns = [];
  ipv6 = ipv6;
  remaining = [];
  sent = [];
  closed = false;
})
