-- ===== src/Tls/Tests.antt =====
-- The HTTP client on a console where every call succeeds.
use ps4rpi.Prelude.{◌≡◌, refl, true, false, none, some, [], ◌∷◌, inl, take, drop, Bytes, codes}
use ps4rpi.Console.{minus_one}
use ps4rpi.Files.{Source, read_text_file, read_from}
use ps4rpi.Samples.{sample_json}
use ps4rpi.Tls.{
  verify_on, TlsCall, TlsLibrary, HttpState, default_ca_bundle_path, BundlePath, unload_ca_bundle,
  http_load_ca_bundle,
}
use ps4rpi.Tls.Bundle.{Keeps}
use ps4rpi.Tls.Config.Keeps.{init, fini, load, operate_all, operate_all-IsHeld}
use ps4rpi.Tls.Options.{Applies, apply_ssl_options, apply_ssl_options-Applies}

abbrev working : TlsLibrary
working log call = 0

-- every file holds the same certificate
abbrev certificate : Bytes → Source
certificate path = record {
  opens = true;
  file_size = some 4;
  read = λ offset room. take room (drop offset (codes "cert"));
  malloc = λ n. true;
}

abbrev down : HttpState
down = record {
  http_initialized = false;
  libssl_ctx_id = minus_one;
  libhttp_ctx_id = minus_one;
  ssl_verify_mode = verify_on;
  ca_bundle_path = default_ca_bundle_path;
  ca_bundle_data = none;
  ca_bundle_loaded = false;
  last_error = [];
}

-- a bundle in place of another is loaded after the other is unloaded
reloads :
    (http_load_ca_bundle working certificate
      (BundlePath.given (codes "/data/a.pem"))
      (record down {
        http_initialized = true;
        libhttp_ctx_id = 1;
        ca_bundle_loaded = true;
        ca_bundle_data = some (codes "old");
      })
      []).log
    ≡ TlsCall.load_cert 1 (codes "cert") ∷ TlsCall.unload_cert 1 ∷ []
unfolding http_load_ca_bundle unload_ca_bundle read_text_file read_from
reloads = refl

operate_all-IsHeld_example : Keeps working (
    operate_all sample_json working certificate
      (init true 5 ∷ load BundlePath.own ∷ fini ∷ [])
      down
      [])
operate_all-IsHeld_example =
    operate_all-IsHeld sample_json working certificate
      (init true 5 ∷ load BundlePath.own ∷ fini ∷ []) down [] (λ log ctx. refl)
      (inl (refl, refl, refl))

apply_ssl_options-Applies_example :
    Applies working 3 verify_on []
      (apply_ssl_options working 3 (codes "https://host/") verify_on down [])
apply_ssl_options-Applies_example =
    apply_ssl_options-Applies working 3 (codes "https://host/") verify_on down []
