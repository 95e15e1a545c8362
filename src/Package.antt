-- ===== src/Package.antt =====
-- RPI/pkg.c, `pkg_is_patch` and `pkg_setup_prerequisites`: a package is inspected over HTTP, and its
-- reference JSON, param.sfo and icon are put on the disk. Each step gives a value, or has left its
-- message in `error_buf`. What the reference JSON's text comes to on the disk is a parameter, since
-- the results of `fprintf` and `fclose` are not looked at; the text is put there at the end.
pub mod Header
pub mod Inspect
pub mod Setup
pub mod Frame
pub mod Pieces
pub mod Sample
mod Tests
use ps4rpi.Prelude.{
  [], ℕ, ◌-◌, Bool, true, false, Option, none, some, ◌∷◌, ◌++◌, take, Bytes, codes,
}
use ps4rpi.Text.{HexErrors}
use ps4rpi.Files.{Sink}
use ps4rpi.Disk.{Disk}
use ps4rpi.Download.{HttpErrors}
use ps4rpi.Tls.{SslVerify, HttpState, TlsLog}
use ps4rpi.Client.{HttpLibrary}
use ps4rpi.Client.Transfer.{Downloaded, Fetched, http_download_file, http_get_file_size}

-- What the functions find around them: codes of the SDK, the HTTP library, how files are written,
-- whether `fopen` succeeds on a path and the errno if not, and what becomes of a text printed.
pub record Host : Type 0 where
  pub errors : HttpErrors
  pub lib : HttpLibrary
  pub hex : HexErrors
  pub sink : Bytes → Sink
  pub fopens : Bytes → Bool
  pub errno : ℕ
  pub printed : Bytes → Bytes

pub record World : Type 0 where
  pub state : HttpState
  pub log : TlsLog
  pub disk : Disk

pub data Outcome (A : Type 0) : Type 0 where
  ok : A → Outcome A
  thrown : Bytes → Outcome A

abbrev pub M : Type 0 → Type 0
M A = World → Outcome A × World

abbrev pub continue : {A B : Type 0} → Outcome A → (A → M B) → M B
continue (ok a) f w = f a w
continue (thrown message) f w = (thrown message, w)

infixl 5 ◌>>=◌ ◌>>◌
abbrev pub ◌>>=◌ : {A B : Type 0} → M A → (A → M B) → M B
◌>>=◌ m f w = continue (m w).0 f (m w).1

abbrev pub ◌>>◌ : {B : Type 0} → M (Unit {0}) → M B → M B
m >> k = m >>= λ _. k

abbrev pub pure : {A : Type 0} → A → M A
pure a w = (ok a, w)

-- the values stored on success; on failure no caller reads them
pub record PackageInfo : Type 0 where
  pub content_type : ℕ
  pub package_size : ℕ
  pub is_patch : Bool
  pub has_icon : Bool

abbrev pub bytes_of : Option Bytes → Bytes
bytes_of none = []
bytes_of (some s) = s

-- a message that names the package
abbrev pub about : Bytes → Bytes → Bytes
about before url = before ++ (url ++ codes "'.\n")

module _ (h : Host) (error_buf_size : ℕ) (mode : SslVerify) where
  -- PKG_THROW_ERROR
  abbrev pub throw : {A : Type 0} → Bytes → M A
  throw message w = (thrown (take (error_buf_size - 1) message), w)

  abbrev or_message : Bytes → Bytes → Bytes
  or_message [] message = message
  or_message (c ∷ s) message = c ∷ s

  -- PKG_THROW_HTTP_ERROR
  abbrev pub throw_http : {A : Type 0} → Bytes → M A
  throw_http message w = throw (or_message w.state.last_error message) w

  pub require : Bool → Bytes → M (Unit {0})
  require true message = pure tt
  require false message = throw message

  pub outcome_of : {A : Type 0} → Bytes → Option A → M A
  outcome_of message none = throw_http message
  outcome_of message (some a) = pure a

  -- after a request, which may have changed the state and the log
  pub fetched : {A : Type 0} → Bytes → Fetched A → M A
  unfolding outcome_of
  fetched message f w = outcome_of message f.value (record w { state = f.state; log = f.log })

  pub download : Bytes → (url : Bytes) → (size offset : ℕ) → M Downloaded
  unfolding fetched
  download message url size offset w =
      fetched message (http_download_file h.errors h.lib (some url) size offset mode w.state w.log)
        w

  pub piece_size : (url : Bytes) → M ℕ
  unfolding fetched
  piece_size url w =
      fetched (about (codes "Unable to get file size for piece '") url)
        (http_get_file_size h.errors h.lib (some url) mode w.state w.log) w
