-- ===== src/Bgft/Register.antt =====
-- Registering a package download.
use mathlib.Core.Path.{subst}
use ps4rpi.Prelude.{
  [], Bool, Bool-cases, Option, codes, ◌==◌, ==_iff, refl, ◌↔◌, ◌⊎◌, Option-cases, inl, inr, ℕ, ◌≡◌,
  true, false, none, some, ◌∷◌, arith, Bytes, ◌≢◌,
}
use ps4rpi.Console.{Console, Call, DownloadParam, Log, minus_one}
use ps4rpi.ContentId.{ContentInfo, parse_content_id}
use ps4rpi.Installer.{Installer, Answer, same_application_already_installed}
use ps4rpi.Bgft.{
  Package, or_empty, register_call, download_param, registered, register_package_task,
}

module _ (k : Console) (s : Installer) (content_id : Bytes) (p : Package) (log : Log) where
  -- the answer, and the registering call that is due
  abbrev answer : Answer ℕ
  answer = register_package_task k s content_id p log

  abbrev after_user : Log
  after_user = Call.get_foreground_user ∷ log

  -- a string that may be a null pointer, as the service is given it
  abbrev text_or_empty : Option Bytes → Bytes
  text_or_empty none = []
  text_or_empty (some s) = s

  -- what the service is asked for, field by field
  abbrev pub due_param : DownloadParam
  due_param = record {
    entitlement_type = 5;
    user_id = k.out log Call.get_foreground_user;
    id = content_id;
    content_url = p.content_url;
    content_name = p.content_name;
    icon_path = text_or_empty p.icon_path;
    playgo_scenario_id = codes "0";
    option = k.opt_disable_cdn_query_param;
    package_type = p.package_type;
    package_sub_type = text_or_empty p.package_sub_type;
    package_size = p.package_size;
  }

  abbrev pub due_for : Bool → Call
  due_for false = Call.register_task due_param
  due_for true = Call.debug_register_pkg due_param

  abbrev pub due_call : Call
  due_call = due_for p.is_patch

  -- All that must hold for the registering call to be made.
  pub record IsReady : Type 0 where
    pub app_up : s.app_inst_util_initialized ≡ true
    pub bgft_up : s.bgft_initialized ≡ true
    pub info : ContentInfo
    pub readable : parse_content_id (some content_id) ≡ some info
    pub user_known : k.ret log Call.get_foreground_user ≡ 0

  -- The call was made, and its result decides: a new task; or, with the id -1, success where the
  -- application is already installed; or an error.
  abbrev pub Makes : Call → Type 0
  Makes c =
      (answer.log ≡ c ∷ after_user)
      × (((k.ret after_user c ≡ 0)
            × (answer.status ≡ true)
            × (answer.error ≡ none)
            × (answer.value ≡ some (k.out after_user c)))
          ⊎ ((k.ret after_user c ≡ same_application_already_installed)
              × (answer.status ≡ true)
              × (answer.value ≡ some minus_one))
          ⊎ ((k.ret after_user c ≢ 0)
              × (k.ret after_user c ≢ same_application_already_installed)
              × (answer.status ≡ false)
              × (answer.error ≡ some (k.ret after_user c))
              × (answer.value ≡ none)))

  -- How a registration ends.
  pub data Registers : Type 0 where
    service_down :
        (s.app_inst_util_initialized ≡ false) ⊎ (s.bgft_initialized ≡ false)
        → answer.status ≡ false
        → answer.error ≡ some k.enxio
        → answer.log ≡ log
        → Registers
    id_unread :
        parse_content_id (some content_id) ≡ none
        → answer.status ≡ false
        → answer.error ≡ some k.einval
        → answer.log ≡ log
        → Registers
    user_unknown :
        k.ret log Call.get_foreground_user ≢ 0
        → answer.status ≡ false
        → answer.error ≡ none
        → answer.log ≡ after_user
        → Registers
    made : IsReady → Makes due_call → Registers

  or_empty_same : (o : Option Bytes) → or_empty o ≡ text_or_empty o
  or_empty_same none = refl
  or_empty_same (some t) = refl

  due_for_same : (b : Bool) → register_call k b due_param ≡ due_for b
  due_for_same false = refl
  due_for_same true = refl

  -- the call of the code is the one that is due
  due_same :
      register_call k p.is_patch
        (download_param k (k.out log Call.get_foreground_user) content_id p)
      ≡ due_call
  due_same =
      rw (or_empty_same p.icon_path, or_empty_same p.package_sub_type) (due_for_same p.is_patch)

  ready-Makes :
      IsReady
      → Makes (
          register_call k p.is_patch
            (download_param k (k.out log Call.get_foreground_user) content_id p))
  unfolding register_package_task registered
  ready-Makes h =
      let up = h.app_up in
      let bgft = h.bgft_up in
      let read = h.readable in
      let user = h.user_known in rw (up, bgft, read, user) (ground arith, ground arith)

  off-Registers : (s.app_inst_util_initialized ≡ false) ⊎ (s.bgft_initialized ≡ false) → Registers
  unfolding register_package_task
  off-Registers down = service_down down (ground arith) (ground arith) (ground arith)

  unread-Registers :
      s.app_inst_util_initialized ≡ true
      → s.bgft_initialized ≡ true
      → parse_content_id (some content_id) ≡ none
      → Registers
  unfolding register_package_task
  unread-Registers up bgft unread =
      id_unread unread (rw (up, bgft, unread) refl) (rw (up, bgft, unread) refl)
        (rw (up, bgft, unread) refl)

  unknown-Registers :
      (info : ContentInfo)
      → s.app_inst_util_initialized ≡ true
      → s.bgft_initialized ≡ true
      → parse_content_id (some content_id) ≡ some info
      → k.ret log Call.get_foreground_user ≢ 0
      → Registers
  unfolding register_package_task
  unknown-Registers info up bgft read unknown =
      let failed : k.ret log Call.get_foreground_user == 0 ≡ false = ground arith in
      user_unknown unknown (rw (up, bgft, read, failed) refl) (rw (up, bgft, read, failed) refl)
        (rw (up, bgft, read, failed) refl)

  -- A registration fails with no registering call made where one of the two services is down, the
  -- content id cannot be read, or the foreground user is not known. In every other case it makes the
  -- one call for its kind of package, a patch or not, with the address, name, icon, type and size
  -- given, and answers by the call's result: the new task id, or the id -1 with success where the
  -- application is already installed, or the call's error.
  pub register_package_task-Registers : Registers
  register_package_task-Registers = elim (Bool-cases s.app_inst_util_initialized) [
    | inr down ↦ off-Registers (inl down)
    | inl up ↦ elim (Bool-cases s.bgft_initialized) [
      | inr down ↦ off-Registers (inr down)
      | inl bgft ↦ elim (Option-cases (parse_content_id (some content_id))) [
        | inl unread ↦ unread-Registers up bgft unread
        | inr (info, read) ↦ elim (Bool-cases (k.ret log Call.get_foreground_user == 0)) [
          | inl known ↦
              let ready : IsReady = record {
                app_up = up;
                bgft_up = bgft;
                info = info;
                readable = read;
                user_known = (==_iff _ _).0 known;
              } in
              made ready (subst Makes due_same (ready-Makes ready))
          | inr unknown ↦ unknown-Registers info up bgft read (λ e. cc ((==_iff _ _).1 e))
        ]
      ]
    ]
  ]

  -- A registration that fails without storing an error code is one where all was well but the
  -- foreground user was not known, and each such registration is one.
  pub register_error_unset : ((answer.status ≡ false) × (answer.error ≡ none)) ↔ (
      (s.app_inst_util_initialized ≡ true)
      × (s.bgft_initialized ≡ true)
      × ((info : ContentInfo) × (parse_content_id (some content_id) ≡ some info))
      × (k.ret log Call.get_foreground_user ≢ 0))
  unfolding register_package_task registered
  register_error_unset = elim (Option-cases (parse_content_id (some content_id))) [
    | inl bad ↦ rw bad (ground arith)
    | inr (info, good) ↦ rw good (
      λ (failed, unset). (ground arith, ground arith, (info, refl), ground arith),
      λ (app, bgft, _, unknown). ground arith,
    )
  ]
