-- ===== src/Socks/Handshake.antt =====
-- client/SOCKS.cpp: whole requests, from the first byte to the end of the parse.
use i2pd.Prelude.{
  ℕ, suc, ◌+◌, ◌*◌, ◌%◌, ◌^◌, ◌≤◌, ◌<◌, ◌≡◌, refl, ◌∙◌, Bool, true, false, ◌||◌, List, [], ◌∷◌,
  ◌++◌, ◌==◌, if◌then◌else◌, ◌≢◌, length, length-append, append_assoc, append-nil, All, arith,
}
use i2pd.Socks.{
  Handler, next, stop, fault, init, is_done, get_port, get4_ident, get4a_host, get5_auth,
  get5_requestv, get5_host_size, get5_host, done, addr_dns, auth_unacceptable, has_i2p, handle_byte,
  handle_bytes, handle_data, validate_socks_request, decrement, enter_state,
}

handle_bytes-next :
    (x : ℕ) (xs : List ℕ) (h k : Handler)
    → handle_byte h.state x h ≡ next k
    → is_done k.state ≡ false
    → handle_bytes (x ∷ xs) h ≡ handle_bytes xs k
unfolding handle_bytes
handle_bytes-next x xs h k e d = rw (e, handle_bytes, d)

-- Whether the client offers to go without authentication.
abbrev pub offers_none : List ℕ → Bool
offers_none [] = false
offers_none (m ∷ ms) = m == 0 || offers_none ms

-- The methods that a SOCKS5 client offers: with 0 among them the handler answers 0 and goes on.
methods_accepted :
    (ms rest : List ℕ) (m : ℕ) (h : Handler)
    → h.state ≡ get5_auth
    → h.parseleft ≡ suc (length ms)
    → h.parseleft < 256
    → ((offers_none (m ∷ ms) || h.authchosen == 0) ≡ true)
    → handle_bytes (m ∷ ms ++ rest) h
      ≡ handle_bytes rest (record h {
        state = get5_requestv;
        parseleft = 1;
        authchosen = 0;
        sent = h.sent ++ (5 ∷ 0 ∷ []) ∷ [];
      })
unfolding handle_bytes handle_byte
methods_accepted [] rest m h s e lt o = ground arith
methods_accepted (n ∷ ms) rest m h s e lt o =
    let k = record h {
      parseleft = decrement h.parseleft;
      authchosen = if m == 0 then 0 else h.authchosen;
    } in
    handle_bytes-next m (n ∷ ms ++ rest) h k (rw s (ground arith)) (rw s)
    ∙ methods_accepted ms rest n k s (ground arith) (ground arith) (ground arith)

-- A host name of the announced length.
read_host :
    (name rest : List ℕ) (c : ℕ) (h : Handler)
    → h.state ≡ get5_host
    → h.parseleft ≡ suc (length name)
    → length h.dns + h.parseleft ≤ 255
    → handle_bytes (c ∷ name ++ rest) h
      ≡ handle_bytes rest (record h { state = get_port; parseleft = 2; dns = h.dns ++ c ∷ name })
unfolding handle_bytes handle_byte
read_host [] rest c h s e fits = ground arith
read_host (d ∷ name) rest c h s e fits = ground (
  arith,
  read_host name rest d (record h { parseleft = decrement h.parseleft; dns = h.dns ++ c ∷ [] }) s,
  length-append h.dns (c ∷ []),
  append_assoc h.dns (c ∷ []) (d ∷ name),
)

read_port :
    (p q : ℕ) (rest : List ℕ) (h : Handler)
    → h.state ≡ get_port
    → h.parseleft ≡ 2
    → h.socksv ≡ 5
    → p < 256
    → q < 256
    → handle_bytes (p ∷ q ∷ rest) h
      ≡ validate_socks_request
          (record h { state = done; parseleft = 1; port = p * 256 + q; remaining = rest })
unfolding handle_bytes handle_byte
read_port p q rest h s e v hp hq =
    let k = record h { parseleft = 1; port = (h.port * 256 + p) % 2 ^ 16 } in
    handle_bytes-next p (q ∷ rest) h k (rw s (ground arith)) (rw s) ∙ ground arith

validate_accepts :
    (h : Handler)
    → h.cmd ≡ 1
    → h.addrtype ≡ addr_dns
    → has_i2p h.dns ≡ true
    → validate_socks_request h ≡ next h
unfolding validate_socks_request
validate_accepts h c a d = ground arith

-- The handler at the method list, and at the host name, of a SOCKS5 request.
abbrev pub greeted : ℕ → ℕ → ℕ → List ℕ → ℕ → Handler
greeted v c r junk n = record (init v c r junk) { state = get5_auth; socksv = 5; parseleft = n }

abbrev naming : ℕ → ℕ → ℕ → List ℕ → ℕ → Handler
naming v c r junk n = record (greeted v c r junk n) {
  state = get5_host;
  cmd = 1;
  authchosen = 0;
  addrtype = addr_dns;
  dns = [];
  sent = (5 ∷ 0 ∷ []) ∷ [];
}

greeting :
    (v c r : ℕ) (junk : List ℕ) (n : ℕ) (xs : List ℕ)
    → handle_data (5 ∷ n ∷ xs) (init v c r junk) ≡ handle_bytes xs (greeted v c r junk n)
unfolding handle_data handle_bytes handle_byte init
greeting v c r junk n xs = refl

request_head :
    (v c r : ℕ) (junk : List ℕ) (n : ℕ) (xs : List ℕ)
    → handle_bytes (5 ∷ 1 ∷ 0 ∷ 3 ∷ n ∷ xs) (record (greeted v c r junk 1) {
      state = get5_requestv;
      authchosen = 0;
      sent = (5 ∷ 0 ∷ []) ∷ [];
    })
      ≡ handle_bytes xs (naming v c r junk n)
unfolding handle_bytes handle_byte init
request_head v c r junk n xs = refl

-- The handler after a SOCKS5 request for `name` at port `p * 256 + q`, with `rest` left over.
abbrev pub requested5 : Handler → List ℕ → ℕ → ℕ → List ℕ → Handler
requested5 h name p q rest = record h {
  state = done;
  socksv = 5;
  parseleft = 1;
  authchosen = 0;
  addrtype = addr_dns;
  cmd = 1;
  port = p * 256 + q;
  dns = name;
  remaining = rest;
  sent = (5 ∷ 0 ∷ []) ∷ [];
}

-- A new handler that receives a whole SOCKS5 CONNECT request for a host name of 1 to 255 bytes with
-- ".i2p" in it, from a client that offers 1 to 255 methods, "no authentication" among them, accepts
-- it: it has answered method 0, and holds just that name, the port in network order, and the bytes
-- that follow the request. This holds whatever the uninitialised members contain.
pub socks5_connect :
    (v c r : ℕ) (junk : List ℕ) (m : ℕ) (ms : List ℕ) (n : ℕ) (name : List ℕ) (p q : ℕ)
    (rest : List ℕ)
    → suc (length ms) < 256
    → offers_none (m ∷ ms) ≡ true
    → suc (length name) ≤ 255
    → has_i2p (n ∷ name) ≡ true
    → p < 256
    → q < 256
    → handle_data
        (5 ∷ suc (length ms) ∷ m ∷ ms
          ++ (5 ∷ 1 ∷ 0 ∷ 3 ∷ suc (length name) ∷ n ∷ name ++ (p ∷ q ∷ rest)))
        (init v c r junk)
      ≡ next (requested5 (init v c r junk) (n ∷ name) p q rest)
unfolding init
socks5_connect v c r junk m ms n name p q rest hm none_offered hn i2p hp hq =
    greeting v c r junk (suc (length ms)) _
    ∙ methods_accepted ms _ m (greeted v c r junk (suc (length ms))) refl refl hm (ground arith)
    ∙ request_head v c r junk (suc (length name)) _
    ∙ read_host name (p ∷ q ∷ rest) n (naming v c r junk (suc (length name))) refl refl
        (omega arith)
    ∙ read_port p q rest _ refl refl refl hp hq
    ∙ validate_accepts _ refl refl i2p

-- With no acceptable method the handler answers 0xff and reads no further byte.
methods_refused :
    (ms rest : List ℕ) (m : ℕ) (h : Handler)
    → h.state ≡ get5_auth
    → h.parseleft ≡ suc (length ms)
    → h.parseleft < 256
    → h.authchosen ≡ auth_unacceptable
    → offers_none (m ∷ ms) ≡ false
    → handle_bytes (m ∷ ms ++ rest) h
      ≡ stop (record h { parseleft = 0; sent = h.sent ++ (5 ∷ auth_unacceptable ∷ []) ∷ [] })
unfolding handle_bytes handle_byte
methods_refused [] rest m h s e lt a o = ground arith
methods_refused (n ∷ ms) rest m h s e lt a o =
    let k = record h { parseleft = decrement h.parseleft } in
    handle_bytes-next m (n ∷ ms ++ rest) h k (rw s (ground arith)) (rw s)
    ∙ methods_refused ms rest n k s (ground arith) (ground arith) a (ground arith)

-- A client that offers methods, but not "no authentication", is answered 0xff, and its handler stops
-- whatever bytes follow.
pub socks5_refused :
    (v c r : ℕ) (junk : List ℕ) (m : ℕ) (ms rest : List ℕ)
    → suc (length ms) < 256
    → offers_none (m ∷ ms) ≡ false
    → handle_data (5 ∷ suc (length ms) ∷ m ∷ ms ++ rest) (init v c r junk)
      ≡ stop (record (greeted v c r junk 0) { sent = (5 ∷ auth_unacceptable ∷ []) ∷ [] })
unfolding init
socks5_refused v c r junk m ms rest hm o =
    greeting v c r junk (suc (length ms)) _
    ∙ methods_refused ms rest m (greeted v c r junk (suc (length ms))) refl refl hm refl o

-- The ident and the host name of a SOCKS4a request run to their zero bytes.
abbrev pub NonZero : ℕ → Type 0
NonZero c = c ≢ 0

read_ident :
    (user rest : List ℕ) (h : Handler)
    → h.state ≡ get4_ident
    → All NonZero user
    → 1 ≤ h.ip4a
    → h.ip4a ≤ 255
    → handle_bytes (user ++ 0 ∷ rest) h
      ≡ handle_bytes rest
          (record h { state = get4a_host; parseleft = 1; addrtype = addr_dns; dns = [] })
unfolding handle_bytes handle_byte
read_ident [] rest h s nz lo hi = ground arith
read_ident (c ∷ user) rest h s (hc, nz) lo hi =
    handle_bytes-next c (user ++ 0 ∷ rest) h h (rw s (ground arith)) (rw s)
    ∙ read_ident user rest h s nz lo hi

read_4a_host :
    (name rest : List ℕ) (h : Handler)
    → h.state ≡ get4a_host
    → All NonZero name
    → length h.dns + length name ≤ 255
    → handle_bytes (name ++ 0 ∷ rest) h
      ≡ validate_socks_request
          (record h { state = done; parseleft = 1; dns = h.dns ++ name; remaining = rest })
unfolding handle_bytes handle_byte
read_4a_host [] rest h s nz fits = ground (arith, append-nil h.dns)
read_4a_host (c ∷ name) rest h s (hc, nz) fits =
    let k = record h { dns = h.dns ++ c ∷ [] } in
    handle_bytes-next c (name ++ 0 ∷ rest) h k (rw s (ground arith)) (rw s)
    ∙ read_4a_host name rest k s nz (omega (arith, length-append h.dns (c ∷ [])))
    ∙ rw (append_assoc h.dns (c ∷ []) name)

-- The handler at the ident of a SOCKS4a request.
abbrev pub identifying : ℕ → ℕ → ℕ → List ℕ → ℕ → ℕ → ℕ → Handler
identifying v c r junk p q x = record (init v c r junk) {
  state = get4_ident;
  socksv = 4;
  cmd = 1;
  parseleft = 1;
  port = p * 256 + q;
  ip = x;
  ip4a = x;
}

request4_head :
    (v c r : ℕ) (junk : List ℕ) (p q x : ℕ) (xs : List ℕ)
    → p < 256
    → q < 256
    → x < 256
    → handle_data (4 ∷ 1 ∷ p ∷ q ∷ 0 ∷ 0 ∷ 0 ∷ x ∷ xs) (init v c r junk)
      ≡ handle_bytes xs (identifying v c r junk p q x)
unfolding handle_data handle_bytes handle_byte init
request4_head v c r junk p q x xs hp hq hx = ground arith

-- A SOCKS4a CONNECT request with the address 0.0.0.x, x from 1 to 255, an ident and a host name of
-- at most 255 bytes, both without zero bytes, and ".i2p" in the name, is accepted with just that name
-- and port, and with the bytes that follow.
pub socks4a_connect :
    (v c r : ℕ) (junk : List ℕ) (p q x : ℕ) (user name rest : List ℕ)
    → p < 256
    → q < 256
    → 1 ≤ x
    → x ≤ 255
    → All NonZero user
    → All NonZero name
    → length name ≤ 255
    → has_i2p name ≡ true
    → handle_data (4 ∷ 1 ∷ p ∷ q ∷ 0 ∷ 0 ∷ 0 ∷ x ∷ user ++ (0 ∷ name ++ 0 ∷ rest)) (init v c r junk)
      ≡ next (record (identifying v c r junk p q x) {
        state = done;
        addrtype = addr_dns;
        dns = name;
        remaining = rest;
      })
unfolding init
socks4a_connect v c r junk p q x user name rest hp hq lo hi hu hn fits i2p =
    request4_head v c r junk p q x _ hp hq (omega arith)
    ∙ read_ident user _ (identifying v c r junk p q x) refl hu lo hi
    ∙ read_4a_host name rest _ refl hn (omega arith)
    ∙ validate_accepts _ refl refl i2p

-- A host length of zero: the handler counts down from 256 instead of stopping, and the byte after
-- the 255th is written behind the end of the host name.
host_overflow :
    (bs : List ℕ) (h : Handler)
    → h.state ≡ get5_host
    → (length h.dns + h.parseleft) % 256 ≡ 0
    → h.parseleft < 256
    → 255 < length h.dns + length bs
    → length h.dns ≤ 255
    → handle_bytes bs h ≡ fault
unfolding handle_bytes handle_byte
host_overflow [] h s e lt long short = absurd (omega arith)
host_overflow (b ∷ bs) h s e lt long short = ground (
  arith,
  host_overflow bs (record h { dns = h.dns ++ b ∷ []; parseleft = decrement h.parseleft }) s,
  length-append h.dns (b ∷ []),
)

-- A handler that waits for the length of a SOCKS5 host name, and receives the length 0 and 256 bytes or
-- more, overflows the buffer of the host name, whatever the bytes are.
pub zero_host_overflows :
    (b : ℕ) (bs : List ℕ) (h : Handler)
    → h.state ≡ get5_host_size
    → 256 ≤ length (b ∷ bs)
    → handle_data (0 ∷ b ∷ bs) h ≡ fault
unfolding handle_data handle_byte
zero_host_overflows b bs h s long =
    handle_bytes-next 0 (b ∷ bs) h (enter_state get5_host 0 h) (rw s) refl
    ∙ host_overflow (b ∷ bs) (enter_state get5_host 0 h) refl refl (omega arith) (omega arith)
        (omega arith)
