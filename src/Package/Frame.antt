-- ===== src/Package/Frame.antt =====
-- What a step of RPI/pkg.c does to the disk, carried through chains of steps.
use ps4rpi.Prelude.{ℕ, ◌≡◌, refl, ◌∙◌, Bool, true, false, Option, none, some, Bytes}
use ps4rpi.Tls.{SslVerify}
use ps4rpi.Client.Transfer.{Fetched}
use ps4rpi.Package.{
  Host, World, Outcome, ok, thrown, M, continue, ◌>>=◌, ◌>>◌, pure, require, outcome_of, fetched,
  download, piece_size,
}

-- The step leaves the files at these paths as they are, whether it fails or not.
pub record Keeps (P : Bytes → Type 0) {A : Type 0} (m : M A) : Type 0 where
  pub keeps : (w : World) (q : Bytes) → P q → (m w).1.disk q ≡ w.disk q

module _ (P : Bytes → Type 0) where
  continue-Keeps :
      {A B : Type 0} (o : Outcome A) (f : A → M B) (w : World) (q : Bytes)
      → ((a : A) → Keeps P (f a))
      → P q
      → (continue o f w).1.disk q ≡ w.disk q
  continue-Keeps (ok a) f w q h p = (h a).keeps w q p
  continue-Keeps (thrown message) f w q h p = refl

  pub >>=-Keeps :
      {A B : Type 0} (m : M A) (f : A → M B)
      → Keeps P m
      → ((a : A) → Keeps P (f a))
      → Keeps P (m >>= f)
  >>=-Keeps m f h g = record {
    keeps = λ w q p. continue-Keeps (m w).0 f (m w).1 q g p ∙ h.keeps w q p;
  }

  pub >>-Keeps :
      {B : Type 0} (m : M (Unit {0})) (k : M B) → Keeps P m → Keeps P k → Keeps P (m >> k)
  >>-Keeps m k h g = >>=-Keeps m (λ _. k) h (λ _. g)

  pub pure-Keeps : {A : Type 0} (a : A) → Keeps P (pure a)
  pure-Keeps a = record { keeps = λ w q p. refl }

  module _ (h : Host) (error_buf_size : ℕ) (mode : SslVerify) where
    pub require-Keeps :
        (b : Bool) (message : Bytes) → Keeps P (require h error_buf_size mode b message)
    unfolding require
    require-Keeps true message = record { keeps = λ w q p. refl }
    require-Keeps false message = record { keeps = λ w q p. refl }

    outcome-Keeps :
        {A : Type 0} (message : Bytes) (o : Option A)
        → Keeps P (outcome_of h error_buf_size mode message o)
    unfolding outcome_of
    outcome-Keeps message none = record { keeps = λ w q p. refl }
    outcome-Keeps message (some a) = record { keeps = λ w q p. refl }

    fetched_disk :
        {A : Type 0} (message : Bytes) (f : Fetched A) (w : World) (q : Bytes)
        → P q
        → (fetched h error_buf_size mode message f w).1.disk q ≡ w.disk q
    unfolding fetched
    fetched_disk message f w q p =
        (outcome-Keeps message f.value).keeps (record w { state = f.state; log = f.log }) q p

    pub download-Keeps :
        (message url : Bytes) (size offset : ℕ)
        → Keeps P (download h error_buf_size mode message url size offset)
    unfolding download
    download-Keeps message url size offset = record {
      keeps = λ w q p. fetched_disk message _ w q p;
    }

    pub piece_size-Keeps : (url : Bytes) → Keeps P (piece_size h error_buf_size mode url)
    unfolding piece_size
    piece_size-Keeps url = record { keeps = λ w q p. fetched_disk _ _ w q p }

pub ruleset keeps_rules =
    (>>=-Keeps, >>-Keeps, pure-Keeps, require-Keeps, download-Keeps, piece_size-Keeps)

after-continue :
    {A B G : Type 0} (o : Outcome A) (f : A → M B) (v : World) {b : B} {w' : World}
    → continue o f v ≡ (ok b, w')
    → ((a : A) → o ≡ ok a → f a v ≡ (ok b, w') → G)
    → G
after-continue (ok a) f v h k = k a refl h
after-continue (thrown message) f v h k = cc

-- A chain that succeeded went through a step that succeeded, and on from where that left the world.
pub after-ok :
    {A B G : Type 0} (m : M A) (f : A → M B) (w : World) {b : B} {w' : World}
    → (m >>= f) w ≡ (ok b, w')
    → ((a : A) → (m w).0 ≡ ok a → f a (m w).1 ≡ (ok b, w') → G)
    → G
after-ok m f w h k = after-continue (m w).0 f (m w).1 h k
