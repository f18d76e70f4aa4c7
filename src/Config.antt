-- ===== src/Config.antt =====
-- server/utils/Config.cpp and client/utils/Config.cpp: the options of the command line. What `getopt`
-- yields is an argument: each option with its text, `?` for one that is not known.
pub mod Ports
use rc.Base.{
  ℕ, ◌-◌, ◌^◌, Bool, true, false, List, [], ◌∷◌, ltb, ◌==◌, if◌then◌else◌, Bytes, codes, Option,
  none, some,
}
use rc.Base.Int.{ℤ, pos, negsuc}
use rc.Exceptions.{Exception, Result, return, throw, invalid_port, invalid_argument}
use rc.Text.Words.{skip_spaces, signed_at}

-- A value for `long`; `none` is an exception.
unfoldable pub long_of : Bool × Option (ℕ × Bytes) → Option ℤ
long_of (sign, none) = none
long_of (true, some (n, s)) =
    if n == 0 then some (pos 0) else if ltb (2 ^ 63) n then none else some (negsuc (n - 1))
long_of (false, some (n, s)) = if ltb (2 ^ 63 - 1) n then none else some (pos n)

-- `std::stol`, which drops what stands behind the number.
unfoldable pub stol : Bytes → Option ℤ
unfolding long_of
stol text = long_of (signed_at (skip_spaces text))

abbrev pub checked_port : Bytes → Option ℤ → Result Bytes
checked_port port none = throw invalid_port
checked_port port (some (negsuc n)) = throw invalid_port
checked_port port (some (pos n)) = if ltb 65535 n then throw invalid_port else return port

-- `setPort`, which is the same on both sides.
unfoldable pub set_port : Bytes → Result Bytes
unfolding stol
set_port port = checked_port port (stol port)

-- The server's settings.
pub record ServerConfig : Type 0 where
  pub help : Bool
  pub verbose : Bool
  pub port : Bytes
  pub data_path : Bytes

abbrev pub default_port : Bytes
default_port = codes "58065"

abbrev pub server_defaults : ServerConfig
server_defaults = record {
  help = false;
  verbose = false;
  port = default_port;
  data_path = codes ".data";
}

-- Where a port is accepted the constructor goes on with it.
abbrev pub with_port : {C : Type 0} → Result Bytes → (Bytes → Result C) → Result C
with_port (return port) f = f port
with_port (throw e) f = throw e

unfoldable pub server_options : List (ℕ × Bytes) → ServerConfig → Result ServerConfig
unfolding set_port
server_options [] c = return c
server_options ((opt, optarg) ∷ options) c =
    let rest = server_options options in
    if opt == b'p'
    then with_port (set_port optarg) (λ port. rest (record c { port = port }))
    else if opt == b'v'
    then rest (record c { verbose = true })
    else if opt == b'h'
    then return (record c { help = true })
    else throw invalid_argument

-- The client's settings.
pub record ClientConfig : Type 0 where
  pub help : Bool
  pub unicode : Bool
  pub ipaddr : Bytes
  pub port : Bytes

abbrev pub client_defaults : ClientConfig
client_defaults = record {
  help = false;
  unicode = false;
  ipaddr = codes "127.0.0.1";
  port = default_port;
}

unfoldable pub client_options : List (ℕ × Bytes) → ClientConfig → Result ClientConfig
unfolding set_port
client_options [] c = return c
client_options ((opt, optarg) ∷ options) c =
    let rest = client_options options in
    if opt == b'p'
    then with_port (set_port optarg) (λ port. rest (record c { port = port }))
    else if opt == b'n'
    then rest (record c { ipaddr = optarg })
    else if opt == b'u'
    then rest (record c { unicode = true })
    else if opt == b'h'
    then return (record c { help = true })
    else throw invalid_argument
