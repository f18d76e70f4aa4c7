-- ===== src/Exceptions.antt =====
-- The exceptions of common/exceptions, server/exceptions and client/exceptions as values, and what a
-- call that may throw comes to.

use rc.Base.{◌≡◌, refl, ◌⊎◌, inl, inr, Bool, true, false, Bytes, ◌++◌}

-- The classes that the modelled code throws; the texts that they carry for the log are left out.
pub data Exception : Type 0 where
  invalid_packet err_packet unexpected_packet packet_encoding : Exception
  ongoing_game uncontextualized_game invalid_trial duplicate_trial : Exception
  exceeded_max_trials timedout_game never_played empty_scoreboard : Exception
  db_filesystem invalid_game_mode invalid_ending : Exception
  connection_timeout connection_reset connection_read connection_write : Exception
  bad_command invalid_player_id invalid_play_time pending_game dup_attempt : Exception
  invalid_attempt invalid_key uncontextualized unexpected_command : Exception
  socket_address_resolve socket_already_created socket_open socket_set_opt socket_bind : Exception
  socket_listen server_receive accept_tcp_connection invalid_port invalid_argument : Exception
  client_timeout client_receive client_send connect_tcp save_file_error : Exception
  -- No exception: from here the behaviour of the program is undefined.
  undefined_behaviour : Exception

pub data Result {ℓ} (A : Type ℓ) : Type ℓ where
  return : A → Result A
  throw : Exception → Result A

pub Result-cases {ℓ} :
    {A : Type ℓ} (r : Result A) → ((a : A) × (r ≡ return a)) ⊎ ((e : Exception) × (r ≡ throw e))
Result-cases (return a) = inl (a, refl)
Result-cases (throw e) = inr (e, refl)

-- Whether the program's behaviour is defined.
abbrev pub is_defined {ℓ} : {A : Type ℓ} → Result A → Bool
is_defined (throw undefined_behaviour) = false
is_defined _ = true

-- What a call prints behind a text.
abbrev pub after : Bytes → Result Bytes → Result Bytes
after text (return s) = return (text ++ s)
after text (throw e) = throw e
