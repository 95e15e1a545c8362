-- ===== src/Install/Endpoints/Asked.antt =====
-- A request to install, whatever it is, comes to one answer or to one install of what it asks for.
use ps4rpi.Prelude.{
  [], ◌≢◌, ◌⊎◌, ◌≡◌, refl, Bool, Bool-cases, inl, inr, Option, none, some, Bytes, codes,
}
use ps4rpi.Console.{Log}
use ps4rpi.Tls.{is_on, on_or_off}
use ps4rpi.Dispatch.{str_case_eq}
use ps4rpi.Response.Shape.{kick_errorf-IsResponse}
use ps4rpi.Request.{Json, JsonType, json_pool_size, Parsed, parsed, answered, request_bool_opt}
use ps4rpi.Request.Refusals.{
  Ensures, Ensures-mono, request_parse-Ensures, request_field-Ensures, request_str-Ensures,
  request_bool_opt-Ensures,
}
use ps4rpi.Package.{World}
use ps4rpi.Install.{Site}
use ps4rpi.Install.Endpoints.{
  direct_urls, install_packages, handle_api_install_direct, install_listed, listed_or,
  install_reference, handle_api_install_ref_pkg_url, by_type, by_policy, by_root,
  handle_api_install,
}
use ps4rpi.Install.Endpoints.Web.{
  Asks, error-Asks, reply-Asks, install_urls-Asks, urls_or-AreFit, extracted-AreFit,
}

module _ (site : Site) {Node : Type 0} (json : Json Node) where
  module _ (IsWanted : Bool → Type 0) (w : World) (log : Log) where
    install_packages-Asks :
        (verify : Bool)
        → IsWanted verify
        → (P : Node → Type 0) (p : Parsed Node) → Ensures P p
        → Asks site IsWanted w log (install_packages site json p (on_or_off verify) w log)
    unfolding install_packages direct_urls
    install_packages-Asks verify want P (answered reply) shape =
        reply-Asks site IsWanted w w log refl reply shape
    install_packages-Asks verify want P (parsed field) there =
        install_urls-Asks site IsWanted w w log refl verify want _
          (urls_or-AreFit site json _ w.state (json.get_children field) refl)

    listed_or-Asks :
        (verify : Bool)
        → IsWanted verify
        → (o : Option Bytes) (uri : Bytes)
        → Asks site IsWanted w log (listed_or site json o uri (on_or_off verify) w log)
    unfolding listed_or install_listed
    listed_or-Asks verify want (some message) uri = error-Asks site IsWanted w w log refl message
    listed_or-Asks verify want none uri =
        install_urls-Asks site IsWanted w _ log refl verify want _
          (extracted-AreFit site json _ (on_or_off verify) w _ refl)

    install_reference-Asks :
        (verify : Bool)
        → IsWanted verify
        → (P : Bytes → Type 0) (p : Parsed Bytes) → Ensures P p
        → Asks site IsWanted w log (install_reference site json p (on_or_off verify) w log)
    unfolding install_reference
    install_reference-Asks verify want P (answered reply) shape =
        reply-Asks site IsWanted w w log refl reply shape
    install_reference-Asks verify want P (parsed uri) there = listed_or-Asks verify want _ uri

    by_type-Asks :
        (root : Node) (verify : Bool)
        → IsWanted verify
        → (P : Bytes → Type 0) (p : Parsed Bytes) → Ensures P p
        → Asks site IsWanted w log (by_type site json root (on_or_off verify) p w log)
    unfolding by_type handle_api_install_direct handle_api_install_ref_pkg_url
    by_type-Asks root verify want P (answered reply) shape =
        reply-Asks site IsWanted w w log refl reply shape
    by_type-Asks root verify want P (parsed type) there =
        elim (Bool-cases (str_case_eq type (codes "direct"))) [
          | inl direct ↦ rw direct (
              install_packages-Asks verify want _ _ (
                request_field-Ensures json site.np_escape w.state.http_initialized root
                  (codes "packages") JsonType.array))
          | inr other ↦ rw other (elim (Bool-cases (str_case_eq type (codes "ref_pkg_url"))) [
            | inl listed ↦ rw listed (
                install_reference-Asks verify want _ _ (
                  request_str-Ensures json site.np_escape w.state.http_initialized root
                    (codes "url")))
            | inr unknown ↦ rw unknown (
                reply-Asks site IsWanted w w log refl _
                  (kick_errorf-IsResponse site.np_escape w.state.http_initialized 400 _ _))
          ])
        ]

  -- The body of the request is a JSON with this root.
  abbrev HasRoot : Option Bytes → Node → Type 0
  HasRoot in_data root =
      (body : Bytes) × (in_data ≡ some body)
      × (body ≢ [])
      × (json.create body json_pool_size ≡ some root)

  -- The request has no switch and the policy is the one that is set, or it is the request's boolean.
  abbrev Switches : Node → Bool → Bool → Type 0
  Switches root before verify =
      ((json.get_property root (codes "ssl_verify") ≡ none) × (verify ≡ before))
      ⊎ ((field : Node) × (json.get_property root (codes "ssl_verify") ≡ some field)
          × (json.get_type field ≡ JsonType.boolean)
          × (verify ≡ json.get_boolean field))

  -- The policy that a request has: its own switch, or else the one that is set.
  abbrev pub IsPolicy : Option Bytes → World → Bool → Type 0
  IsPolicy in_data w verify =
      (root : Node) × HasRoot in_data root × Switches root (is_on w.state.ssl_verify_mode) verify

  by_policy-Asks :
      (in_data : Option Bytes) (w : World) (log : Log) (root : Node)
      → HasRoot in_data root
      → (p : Parsed Bool) → Ensures (Switches root (is_on w.state.ssl_verify_mode)) p
      → Asks site (IsPolicy in_data w) w log (by_policy site json root p w log)
  unfolding by_policy
  by_policy-Asks in_data w log root has (answered reply) shape =
      reply-Asks site (IsPolicy in_data w) w w log refl reply shape
  by_policy-Asks in_data w log root has (parsed verify) switch =
      by_type-Asks (IsPolicy in_data w) w log root verify (root, has, switch) _ _
        (request_str-Ensures json site.np_escape w.state.http_initialized root (codes "type"))

  switched :
      (root : Node) (w : World)
      → Ensures (Switches root (is_on w.state.ssl_verify_mode)) (
          request_bool_opt json site.np_escape w.state.http_initialized root
            (codes "ssl_verify")
            (is_on w.state.ssl_verify_mode))
  switched root w =
      Ensures-mono _ _
        (request_bool_opt json site.np_escape w.state.http_initialized root (codes "ssl_verify")
          (is_on w.state.ssl_verify_mode))
        (request_bool_opt-Ensures json site.np_escape w.state.http_initialized root
          (codes "ssl_verify") (is_on w.state.ssl_verify_mode))
        (λ b. elim [
          | inl absent ↦ inl absent
          | inr (field, (there, type), value) ↦ inr (field, there, type, value)
        ])

  by_root-Asks :
      (in_data : Option Bytes) (w : World) (log : Log) (p : Parsed Node)
      → Ensures (HasRoot in_data) p
      → Asks site (IsPolicy in_data w) w log (by_root site json p w log)
  unfolding by_root
  by_root-Asks in_data w log (answered reply) there =
      reply-Asks site (IsPolicy in_data w) w w log refl reply there
  by_root-Asks in_data w log (parsed root) there =
      by_policy-Asks in_data w log root there _ (switched root w)

  -- A request to install either is answered with one response of code 400 or 500, with no file and
  -- no task changed, or it comes to one install, whose URLs are at least one, each the encoding of
  -- a string that begins with http:// or https://, and whose TLS policy is the boolean "ssl_verify"
  -- of the request's JSON, or the one that is set where the JSON has no such member; the disk is
  -- then still as it was.
  pub handle_api_install-Asks :
      (in_data : Option Bytes) (w : World) (log : Log)
      → Asks site (IsPolicy in_data w) w log (handle_api_install site json in_data w log)
  unfolding handle_api_install
  handle_api_install-Asks in_data w log =
      by_root-Asks in_data w log _
        (request_parse-Ensures json site.np_escape w.state.http_initialized in_data)
