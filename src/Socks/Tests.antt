-- ===== src/Socks/Tests.antt =====
-- client/SOCKS.cpp: the theorems at concrete inputs.
use i2pd.Prelude.{ℕ, ◌≡◌, refl, List, [], ◌∷◌, ◌++◌, replicate, inr, arith}
use i2pd.Prelude.Bytes.{codes}
use i2pd.Socks.{
  Handler, next, fault, init, handle_byte, handle_data, get_socksv, get5_host_size, has_i2p,
}
use i2pd.Socks.Invariant.{StaysValid, handle_byte-IsValid}
use i2pd.Socks.Handshake.{requested5, socks5_connect, zero_host_overflows}

-- A new handler whose uninitialised members hold 7, 8 and 9.
abbrev fresh : Handler
fresh = init 7 8 9 (replicate 16 1)

abbrev site : List ℕ
site = codes "a.i2p"

handle_byte-IsValid_example : StaysValid (handle_byte get_socksv 5 fresh)
unfolding init
handle_byte-IsValid_example =
    handle_byte-IsValid 5 fresh (omega arith) (inr (omega arith))
      (record { fits = tt; name_fits = omega arith; octets = refl })

socks5_connect_example :
    handle_data (5 ∷ 1 ∷ 0 ∷ 5 ∷ 1 ∷ 0 ∷ 3 ∷ 5 ∷ site ++ (0 ∷ 80 ∷ codes "GET")) fresh
    ≡ next (requested5 fresh site 0 80 (codes "GET"))
unfolding has_i2p
socks5_connect_example =
    socks5_connect 7 8 9 (replicate 16 1) 0 [] b'a' (codes ".i2p") 0 80 (codes "GET") (omega arith)
      refl (omega arith) refl (omega arith) (omega arith)

zero_host_overflows_example :
    handle_data (0 ∷ 65 ∷ replicate 255 65) (record fresh { state = get5_host_size }) ≡ fault
zero_host_overflows_example =
    zero_host_overflows 65 (replicate 255 65) (record fresh { state = get5_host_size }) refl
      (omega arith)
