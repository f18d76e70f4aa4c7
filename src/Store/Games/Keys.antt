-- ===== src/Store/Games/Keys.antt =====
-- `generateKey`: what the bytes of `/dev/urandom` become.
use rc.Base.{ℕ, zero, suc, ◌%◌, ◌<◌, ◌≡◌, refl, ◌∙◌, [], ◌∷◌, arith, Bytes, none, some, length, All}
use rc.Constants.{valid_colors, secret_key_len}
use rc.Exceptions.{return}
use rc.Store.Files.{Call}
use rc.Store.Games.{color_of, colors_of, generate_key, choose_key}
use rc.Store.Records.{GameMode}
use rc.Udp.Parser.Reads.{IsColor, IsKey}
use rc.Udp.Parser.{has_byte}

below_six : (i : ℕ) → i < 6 → IsColor (color_of i valid_colors)
unfolding color_of has_byte
below_six zero h = refl
below_six (suc zero) h = refl
below_six (suc (suc zero)) h = refl
below_six (suc (suc (suc zero))) h = refl
below_six (suc (suc (suc (suc zero)))) h = refl
below_six (suc (suc (suc (suc (suc zero))))) h = refl
below_six (suc (suc (suc (suc (suc (suc i)))))) h = absurd (omega arith)

colors-IsColor : (bytes : Bytes) → All IsColor (colors_of bytes)
unfolding colors_of
colors-IsColor [] = tt
colors-IsColor (b ∷ bytes) = (below_six (b % 6) (omega arith), colors-IsColor bytes)

length-colors : (bytes : Bytes) → length (colors_of bytes) ≡ length bytes
unfolding colors_of
length-colors [] = refl
length-colors (b ∷ bytes) = omega (arith, length-colors bytes)

-- Any four bytes of `/dev/urandom` make a key of four valid colours, and it is the key of a game
-- for play.
pub choose_key_random :
    (bytes : Bytes) (c : Call)
    → length bytes ≡ secret_key_len
    → (choose_key none (some bytes) c ≡ (return (colors_of bytes, GameMode.play), c))
      × IsKey (colors_of bytes)
unfolding choose_key generate_key
choose_key_random bytes c e =
    (refl, record { four = length-colors bytes ∙ e; colors = colors-IsColor bytes })
