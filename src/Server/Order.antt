-- ===== src/Server/Order.antt =====
-- Which routers stand before createDeviceAuth and before createAccountAuth.
use labaiacinghiala.Common.{true, ◌≡◌, refl, ◌⊎◌, inl, inr}
use labaiacinghiala.Server.{
  Mount, pairing, auth, app_info, movies, series_pages, reading, music_pages, pairing_invites,
  paired_devices, accounts, library, music_metadata, metadata, uploads, is_before_device,
  is_before_account,
}

pub before_device-eq : (mount : Mount) → is_before_device mount ≡ true → mount ≡ pairing
unfolding is_before_device
before_device-eq pairing h = refl
before_device-eq auth h = absurd (cc h)
before_device-eq app_info h = absurd (cc h)
before_device-eq movies h = absurd (cc h)
before_device-eq series_pages h = absurd (cc h)
before_device-eq reading h = absurd (cc h)
before_device-eq music_pages h = absurd (cc h)
before_device-eq pairing_invites h = absurd (cc h)
before_device-eq paired_devices h = absurd (cc h)
before_device-eq accounts h = absurd (cc h)
before_device-eq library h = absurd (cc h)
before_device-eq music_metadata h = absurd (cc h)
before_device-eq metadata h = absurd (cc h)
before_device-eq uploads h = absurd (cc h)

pub before_account-eq :
    (mount : Mount) → is_before_account mount ≡ true → (mount ≡ auth) ⊎ (mount ≡ app_info)
unfolding is_before_account
before_account-eq pairing h = absurd (cc h)
before_account-eq auth h = inl refl
before_account-eq app_info h = inr refl
before_account-eq movies h = absurd (cc h)
before_account-eq series_pages h = absurd (cc h)
before_account-eq reading h = absurd (cc h)
before_account-eq music_pages h = absurd (cc h)
before_account-eq pairing_invites h = absurd (cc h)
before_account-eq paired_devices h = absurd (cc h)
before_account-eq accounts h = absurd (cc h)
before_account-eq library h = absurd (cc h)
before_account-eq music_metadata h = absurd (cc h)
before_account-eq metadata h = absurd (cc h)
before_account-eq uploads h = absurd (cc h)
