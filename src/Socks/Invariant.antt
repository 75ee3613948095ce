-- ===== src/Socks/Invariant.antt =====
-- client/SOCKS.cpp: what holds in each state.
use i2pd.Prelude.{
  ℕ, ◌+◌, ◌-◌, ◌≤◌, ◌<◌, ◌≡◌, refl, [], ◌∷◌, length, ◌≢◌, ◌⊎◌, arith, length-append, length-set,
}
use i2pd.Socks.{
  Handler, Step, next, stop, fault, State, get_socksv, get_command, get_port, get_ipv4, get4_ident,
  get4a_host, get5_authnum, get5_auth, get5_requestv, get5_getrsv, get5_getaddrtype, get5_ipv6,
  get5_host_size, get5_host, done, handle_byte,
}

-- The bytes still expected in a state, and the protocol version that it belongs to.
abbrev pub Fits : State → Handler → Type 0
Fits get_socksv h = Unit {0}
Fits get5_authnum h = h.socksv ≡ 5
Fits get5_auth h = (h.socksv ≡ 5) × (h.parseleft < 256)
Fits get_command h = (h.socksv ≡ 4) ⊎ (h.socksv ≡ 5)
Fits get_port h = ((h.socksv ≡ 4) ⊎ (h.socksv ≡ 5)) × (1 ≤ h.parseleft) × (h.parseleft ≤ 2)
Fits get_ipv4 h = ((h.socksv ≡ 4) ⊎ (h.socksv ≡ 5)) × (1 ≤ h.parseleft) × (h.parseleft ≤ 4)
Fits get4_ident h = h.socksv ≡ 4
Fits get4a_host h = h.socksv ≡ 4
Fits get5_requestv h = h.socksv ≡ 5
Fits get5_getrsv h = h.socksv ≡ 5
Fits get5_getaddrtype h = h.socksv ≡ 5
Fits get5_ipv6 h = (h.socksv ≡ 5) × (1 ≤ h.parseleft) × (h.parseleft ≤ 16)
Fits get5_host_size h = h.socksv ≡ 5
Fits get5_host h = (h.socksv ≡ 5) × (1 ≤ h.parseleft) × (length h.dns + h.parseleft ≤ 255)
Fits done h = (h.socksv ≡ 4) ⊎ (h.socksv ≡ 5)

pub record IsValid (h : Handler) : Type 0 where
  pub fits : Fits h.state h
  pub name_fits : length h.dns ≤ 255
  pub octets : length h.ipv6 ≡ 16

-- What a step may do: go on in a valid handler, or stop.
abbrev pub StaysValid : Step → Type 0
StaysValid (next h) = IsValid h
StaysValid (stop h) = Unit {0}
StaysValid fault = ⊥

handle_byte_in-IsValid :
    (s : State) (b : ℕ) (h : Handler)
    → b < 256
    → (s ≢ get5_host_size) ⊎ (b ≢ 0)
    → h.state ≡ s
    → Fits s h
    → length h.dns ≤ 255
    → length h.ipv6 ≡ 16
    → StaysValid (handle_byte s b h)
unfolding handle_byte
handle_byte_in-IsValid get_socksv b h hb ok e f nf o = ground arith
handle_byte_in-IsValid get5_ipv6 b h hb ok e f nf o =
    ground (arith, length-set h.ipv6 (16 - h.parseleft) b)
handle_byte_in-IsValid get5_host b h hb ok e f nf o = ground (arith, length-append h.dns (b ∷ []))
handle_byte_in-IsValid get4a_host b h hb ok e f nf o = ground (arith, length-append h.dns (b ∷ []))
handle_byte_in-IsValid get5_host_size b h hb ok e f nf o = ground arith
handle_byte_in-IsValid done b h hb ok e f nf o = ground arith
handle_byte_in-IsValid s b h hb ok e f nf o = ground arith

-- A byte other than a host length of zero keeps a handler valid: no assertion fails, no buffer
-- overflows, and each counter of expected bytes stays within the buffer that it fills.
pub handle_byte-IsValid :
    (b : ℕ) (h : Handler)
    → b < 256
    → (h.state ≢ get5_host_size) ⊎ (b ≢ 0)
    → IsValid h
    → StaysValid (handle_byte h.state b h)
handle_byte-IsValid b h hb ok v =
    handle_byte_in-IsValid h.state b h hb ok refl v.fits v.name_fits v.octets
