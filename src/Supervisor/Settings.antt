-- ===== src/Supervisor/Settings.antt =====
-- The connection profile in the settings of the store.
use orc_mesh.Prelude.{◌≡◌, ◌≢◌, refl, ℕ, some, [], ◌∷◌}
use orc_mesh.Prelude.Text.{
  Text, codes, text_or, show_ℤ, parse_int, parse_int-show_ℤ, text_or-show_ℤ,
}
use orc_mesh.Prelude.Dict.{lookup, lookup-insert, string_eq}
use orc_mesh.Supervisor.{
  ConnectionProfile, Settings, put_profile, profile_of, load_profile, port_or_default,
}

text_or_nil : (t : Text) → text_or (some t) [] ≡ t
text_or_nil [] = refl
text_or_nil (c ∷ t) = refl

module _ (p : ConnectionProfile) (store : Settings) where
  lookup-put_profile :
      (lookup "connection.transport" (put_profile p store) ≡ some p.transport)
      × (lookup "connection.ble_address" (put_profile p store) ≡ some p.ble_address)
      × (lookup "connection.tcp_host" (put_profile p store) ≡ some p.tcp_host)
      × (lookup "connection.tcp_port" (put_profile p store) ≡ some (show_ℤ p.tcp_port))
      × (lookup "connection.serial_port" (put_profile p store) ≡ some p.serial_port)
  unfolding put_profile
  lookup-put_profile = (
    simp lookup-insert,
    simp lookup-insert,
    simp lookup-insert,
    simp lookup-insert,
    simp lookup-insert,
  )

  port_back :
      port_or_default (parse_int (text_or (some (show_ℤ p.tcp_port)) (codes "4403"))) ≡ p.tcp_port
  port_back = simp (text_or-show_ℤ, parse_int-show_ℤ)

  profile_of-put_profile :
      (c : ℕ) (t : Text) → p.transport ≡ c ∷ t → profile_of (put_profile p store) (c ∷ t) ≡ some p
  unfolding profile_of
  profile_of-put_profile c t e =
      let (a, b, h, n, l) = lookup-put_profile in
      simp (b, h, n, l, text_or_nil, text_or-show_ℤ, parse_int-show_ℤ, ← e)

  load_profile-transport :
      (t : Text)
      → p.transport ≡ t
      → t ≢ []
      → profile_of (put_profile p store) (text_or (some t) []) ≡ some p
  load_profile-transport [] e h = absurd (h refl)
  load_profile-transport (c ∷ t) e h = profile_of-put_profile c t e

  -- A saved profile that names a transport is loaded as it was, whatever was stored before.
  pub load_profile-put_profile : p.transport ≢ [] → load_profile (put_profile p store) ≡ some p
  unfolding load_profile
  load_profile-put_profile h = rw (lookup-put_profile.0) (load_profile-transport p.transport refl h)
