-- ===== src/DeviceAuth/Tests.antt =====
-- The replay theorem at one signed request and the theorem on media at one URL, over a verifier that
-- accepts every signature, and some media paths.
use labaiacinghiala.Common.{false, ℕ, true, [], ◌∷◌, codes, ◌≡◌, ◌≢◌, refl, ok, amount, arith}
use labaiacinghiala.Store.{Device}
use labaiacinghiala.DeviceAuth.{
  replay_key, Authorization, Call, check_request, clean_replay_cache, verify_request,
}
use labaiacinghiala.DeviceAuth.Media.{MediaAuthorization, is_authorized_media_path}
use labaiacinghiala.DeviceAuth.Replay.{serve, no_replay}
use labaiacinghiala.Samples.{accepting, uuid, device}

abbrev phone : Device
phone = device uuid

abbrev proof : Authorization
proof = record {
  device_id = uuid;
  timestamp = amount 1000;
  nonce = codes "nonce";
  signature = codes "sig";
}

abbrev at_time : ℕ → Call
at_time n = record { method = codes "get"; target = codes "/api/auth"; now = n }

accepted : (verify_request accepting (phone ∷ []) proof (at_time 1010) []).1 ≡ ok phone
unfolding verify_request check_request clean_replay_cache
accepted = refl

no_replay_example :
    (verify_request accepting (phone ∷ []) proof (at_time 1050) (
      serve accepting
        ((phone ∷ [], proof, at_time 1020) ∷ [])
        (verify_request accepting (phone ∷ []) proof (at_time 1010) []).0)).1
    ≢ ok phone
no_replay_example =
    no_replay accepting (phone ∷ []) (phone ∷ []) proof (at_time 1010) (at_time 1050) []
      ((phone ∷ [], proof, at_time 1020) ∷ []) accepted (omega arith, tt)

abbrev media_proof : MediaAuthorization
media_proof = record { device_id = uuid; expires = amount 5000; signature = codes "sig" }

page_refused : is_authorized_media_path (codes "/api/movies/12") ≡ false
unfolding is_authorized_media_path
page_refused = refl

cover_accepted :
    is_authorized_media_path (codes "/API/music/albums/01234567-89ab-4def-8123-456789ABCDEF/Cover")
    ≡ true
unfolding is_authorized_media_path
cover_accepted = refl

key_of_nonce : replay_key (codes "phone") (codes "nonce") ≡ codes "phone:nonce"
unfolding replay_key
key_of_nonce = refl
