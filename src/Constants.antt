-- ===== src/Constants.antt =====
-- common/constants.hpp: the sizes and limits that the modelled code uses.
use rc.Base.{ℕ, [], ◌∷◌, Bytes}

abbrev pub plid_max : ℕ
plid_max = 999999

abbrev pub plid_len : ℕ
plid_len = 6

abbrev pub secret_key_len : ℕ
secret_key_len = 4

abbrev pub packet_id_len : ℕ
packet_id_len = 3

abbrev pub status_code_len : ℕ
status_code_len = 3

abbrev pub play_time_max : ℕ
play_time_max = 600

abbrev pub uint32_max : ℕ
uint32_max = 4294967295

-- `VALID_COLORS`.
abbrev pub valid_colors : Bytes
valid_colors = b'R' ∷ b'G' ∷ b'B' ∷ b'Y' ∷ b'O' ∷ b'P' ∷ []

abbrev pub guesses_max : ℕ
guesses_max = 8

abbrev pub scoreboard_max_entries : ℕ
scoreboard_max_entries = 10

abbrev pub sock_buffer_size : ℕ
sock_buffer_size = 32

abbrev pub fname_max : ℕ
fname_max = 24

abbrev pub fsize_max : ℕ
fsize_max = 2048

abbrev pub fsize_str_max : ℕ
fsize_str_max = 4

abbrev pub tcp_maxclients : ℕ
tcp_maxclients = 20

abbrev pub tcp_conn_recv_timeout : ℕ
tcp_conn_recv_timeout = 5

abbrev pub tcp_conn_send_timeout : ℕ
tcp_conn_send_timeout = 5

abbrev pub server_recv_timeout : ℕ
server_recv_timeout = 5

abbrev pub client_recv_timeout : ℕ
client_recv_timeout = 10

abbrev pub client_send_timeout : ℕ
client_send_timeout = 10
