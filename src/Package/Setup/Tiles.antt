-- ===== src/Package/Setup/Tiles.antt =====
-- The pieces in the reference JSON of a package that was prepared.
use ps4rpi.Prelude.{
  ℕ, ◌+◌, ◌%◌, ◌^◌, ◌≡◌, refl, sym, ap, ap₂, ◌∙◌, Option, none, some, List, [], ◌∷◌, ◌++◌, map, All,
  append-nil, Bytes, codes,
}
use mathlib.Core.Path.{subst}
use ps4rpi.Tls.{SslVerify, HttpState, TlsLog}
use ps4rpi.Client.Transfer.{http_get_file_size}
use ps4rpi.Package.{Host, World, ok, outcome_of, fetched, piece_size}
use ps4rpi.Package.Frame.{after-ok}
use ps4rpi.Package.Setup.{comma, piece_text, Printed, before_rest, more_pieces}

pub record Piece : Type 0 where
  pub url : Bytes
  pub offset : ℕ
  pub size : ℕ

-- texts with a comma between each two
pub joined : List Bytes → Bytes
joined [] = []
joined (t ∷ []) = t
joined (t ∷ u ∷ ts) = t ++ (codes "," ++ joined (u ∷ ts))

abbrev pub text_of : (digest : Bytes) → Piece → Bytes
text_of digest p = piece_text p.url p.offset p.size digest

-- Each piece begins where the one before it ended, as a number of 64 bits.
abbrev pub Chain : (start : ℕ) → List Piece → (end : ℕ) → Type 0
Chain start [] end = start ≡ end
Chain start (p ∷ ps) end = (p.offset ≡ start) × Chain ((start + p.size) % 2 ^ 64) ps end

joined_step :
    (digest t : Bytes) (ps : List Piece)
    → joined (t ∷ map (text_of digest) ps)
      ≡ t ++ (comma (map (λ p. p.url) ps) ++ joined (map (text_of digest) ps))
unfolding joined
joined_step digest t [] = sym (append-nil t)
joined_step digest t (p ∷ ps) = refl

module _ (h : Host) (error_buf_size : ℕ) (mode : SslVerify) where
  -- The size of the piece was reported by its server.
  pub record IsReported (p : Piece) : Type 0 where
    pub state : HttpState
    pub log : TlsLog
    pub reported :
        (http_get_file_size h.errors h.lib (some p.url) mode state log).value ≡ some p.size

  outcome-ok :
      {A : Type 0} (message : Bytes) (o : Option A) (w : World) {a : A}
      → (outcome_of h error_buf_size mode message o w).0 ≡ ok a
      → o ≡ some a
  unfolding outcome_of
  outcome-ok message none w e = cc
  outcome-ok message (some b) w e = cc

  piece_size-ok :
      (url : Bytes) (w : World) {size : ℕ}
      → (piece_size h error_buf_size mode url w).0 ≡ ok size
      → (http_get_file_size h.errors h.lib (some url) mode w.state w.log).value ≡ some size
  unfolding piece_size fetched
  piece_size-ok url w e = outcome-ok _ _ _ e

  -- the pieces behind a text
  pub record Tiles (digest : Bytes) (urls : List Bytes) (start : ℕ) (r : Printed) : Type 0 where
    pub pieces : List Piece
    pub of_urls : map (λ p. p.url) pieces ≡ urls
    pub texts : r.text ≡ joined (map (text_of digest) pieces)
    pub chain : Chain start pieces r.offset
    pub sizes : All IsReported pieces

  -- the text with one more piece in front
  pub joined-cons :
      (p : Piece) (urls : List Bytes) (digest : Bytes) {start : ℕ} (rest : Printed)
      (t : Tiles digest urls start rest)
      → text_of digest p ++ (comma urls ++ rest.text) ≡ joined (map (text_of digest) (p ∷ t.pieces))
  joined-cons p urls digest rest t =
      ap₂ (λ us x. text_of digest p ++ (comma us ++ x)) (sym t.of_urls) t.texts
      ∙ sym (joined_step digest (text_of digest p) t.pieces)

  with_first :
      (p : Piece) (urls : List Bytes) (digest : Bytes) (rest : Printed)
      → Tiles digest urls ((p.offset + p.size) % 2 ^ 64) rest
      → IsReported p
      → Tiles digest
          (p.url ∷ urls)
          p.offset
          (before_rest h error_buf_size mode p.url p.offset p.size digest urls rest)
  with_first p urls digest rest t told = record {
    pieces = p ∷ t.pieces;
    of_urls = ap (◌∷◌ p.url) t.of_urls;
    texts = joined-cons p urls digest rest t;
    chain = (refl, t.chain);
    sizes = (told, t.sizes);
  }

  pub more_pieces-Tiles :
      (digest : Bytes) (urls : List Bytes) (offset : ℕ) (w : World) {r : Printed}
      → (more_pieces h error_buf_size mode digest urls offset w).0 ≡ ok r
      → Tiles digest urls offset r
  unfolding more_pieces joined
  more_pieces-Tiles digest [] offset w {r} e =
      let same : record { text = []; offset = offset } ≡ r = cc in
      record {
        pieces = [];
        of_urls = refl;
        texts = ap (λ t. t.text) (sym same);
        chain = ap (λ t. t.offset) same;
        sizes = tt;
      }
  more_pieces-Tiles digest (url ∷ urls) offset w {r} e =
      let m = more_pieces h error_buf_size mode digest (url ∷ urls) offset w in
      after-ok (piece_size h error_buf_size mode url) _ w {w' = m.1} (λ i. (e i, m.1))
        λ size got e1.
          after-ok (more_pieces h error_buf_size mode digest urls ((offset + size) % 2 ^ 64)) _ _ e1
            λ rest went e2.
              let same : before_rest h error_buf_size mode url offset size digest urls rest ≡ r =
                cc in
              let t =
                more_pieces-Tiles digest urls ((offset + size) % 2 ^ 64)
                  (piece_size h error_buf_size mode url w).1 went in
              let first : Piece = record { url = url; offset = offset; size = size } in
              subst (Tiles digest (url ∷ urls) offset) same (
                with_first first urls digest rest t
                  (record { state = w.state; log = w.log; reported = piece_size-ok url w got }))
