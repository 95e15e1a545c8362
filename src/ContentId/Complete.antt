-- ===== src/ContentId/Complete.antt =====
-- Every content id that has the shape is accepted, and so every printed one is read back.
use ps4rpi.Prelude.{
  ◌-◌, ◌≡◌, refl, sym, ap, ap₂, ◌∙◌, some, ◌∷◌, ◌++◌, arith, ==_iff, ◌↔◌, length, length-append,
  take, take_all, take-append, append_assoc, Bytes, Lacks, All-append, strchr, strrchr,
  strchr-append, strrchr-append, next_char,
}
use ps4rpi.ContentId.{ContentInfo, parse_content_id}
use ps4rpi.ContentId.Sound.{IsSplit, parse_content_id_sound}

parse_by_steps :
    (s p1 p2 q p3 : Bytes)
    → strchr s b'-' ≡ some p1
    → strchr (next_char p1) b'-' ≡ some p2
    → strchr (next_char p1) b'_' ≡ some q
    → strrchr s b'-' ≡ some p3
    → length s ≡ 36
    → length s - length p2 ≡ 19
    → length (take 19 s) ≡ 19
    → length (take 9 (next_char p1)) ≡ 9
    → length (take 16 (next_char p3)) ≡ 16
    → parse_content_id (some s)
      ≡ some (record {
        content_id = take 36 s;
        service_id = take 19 s;
        title_id = take 9 (next_char p1);
        label = take 16 (next_char p3);
      })
unfolding parse_content_id
parse_by_steps s p1 p2 q p3 f1 f2 fq f3 len at sl tl ll = rw (
  (==_iff _ _).1 len,
  f1,
  f2,
  (==_iff _ _).1 at,
  (==_iff _ _).1 sl,
  fq,
  (==_iff _ _).1 tl,
  f3,
  (==_iff _ _).1 ll,
)

parse_content_id_complete :
    (s : Bytes) {info : ContentInfo} → IsSplit s info → parse_content_id (some s) ≡ some info
parse_content_id_complete s {info} h =
    let tail = h.middle ++ (b'-' ∷ info.label) in
    let front = h.publisher ++ (b'-' ∷ h.middle) in
    let cut : s ≡ front ++ (b'-' ∷ info.label) =
      h.splits ∙ sym (append_assoc h.publisher (b'-' ∷ h.middle) (b'-' ∷ info.label)) in
    let len : length s ≡ 36 = ap length (sym h.whole) ∙ h.whole_length in
    let len_front : length front ≡ 19 = ap length (sym h.service) ∙ h.service_length in
    let label : take 16 info.label ≡ info.label =
      take_all 16 info.label (omega (arith, h.label_length)) in
    let service : take 19 s ≡ info.service_id =
      ap₂ take (sym len_front) cut ∙ take-append front (b'-' ∷ info.label) ∙ sym h.service in
    parse_by_steps s (b'-' ∷ tail) (b'-' ∷ info.label) h.underscore.0 (b'-' ∷ info.label)
      (ap (λ x. strchr x b'-') h.splits ∙ strchr-append h.publisher tail b'-' h.publisher_dashes)
      (strchr-append h.middle info.label b'-' h.middle_dashes) h.underscore.1
      (ap (λ x. strrchr x b'-') cut ∙ strrchr-append front info.label b'-' h.label_dashes) len
      (omega (arith, h.label_length)) (ap length service ∙ h.service_length)
      (ap length (sym h.title) ∙ h.title_length) (ap length label ∙ h.label_length)
    ∙ cc (take_all 36 s (omega arith), h.whole, service, h.title, label)

-- `pkg_parse_content_id` accepts exactly the content ids of 36 bytes with two dashes, the second at
-- index 19, and an underscore behind the first, and reads from them the nine bytes behind the first
-- dash as the title and the bytes behind the second as the label.
pub parse_content_id_iff :
    (s : Bytes) {info : ContentInfo} → (parse_content_id (some s) ≡ some info) ↔ IsSplit s info
parse_content_id_iff s = (parse_content_id_sound s, parse_content_id_complete s)

-- The parts of a content id as its publisher writes them.
pub record Parts : Type 0 where
  pub publisher : Bytes
  pub title : Bytes
  pub version : Bytes
  pub label : Bytes

-- six, nine, two and sixteen bytes, none of them a dash
pub record IsWellFormed (p : Parts) : Type 0 where
  pub publisher_length : length p.publisher ≡ 6
  pub title_length : length p.title ≡ 9
  pub version_length : length p.version ≡ 2
  pub label_length : length p.label ≡ 16
  pub publisher_dashes : Lacks b'-' p.publisher
  pub title_dashes : Lacks b'-' p.title
  pub title_underscores : Lacks b'_' p.title
  pub version_dashes : Lacks b'-' p.version
  pub label_dashes : Lacks b'-' p.label

abbrev pub middle_of : Parts → Bytes
middle_of p = p.title ++ (b'_' ∷ p.version)

-- <publisher>-<title>_<version>-<label>
abbrev pub print : Parts → Bytes
print p = p.publisher ++ (b'-' ∷ (middle_of p ++ (b'-' ∷ p.label)))

-- A printed content id is accepted, and its title and label are read back.
pub parse-print :
    (p : Parts)
    → IsWellFormed p
    → parse_content_id (some (print p))
      ≡ some (record {
        content_id = print p;
        service_id = p.publisher ++ (b'-' ∷ middle_of p);
        title_id = p.title;
        label = p.label;
      })
parse-print p h = parse_content_id_complete (print p) (record {
  publisher = p.publisher;
  middle = middle_of p;
  splits = refl;
  publisher_dashes = h.publisher_dashes;
  middle_dashes =
      All-append _ p.title (b'_' ∷ p.version) h.title_dashes ((λ e. omega arith), h.version_dashes);
  label_dashes = h.label_dashes;
  underscore = (
    b'_' ∷ (p.version ++ (b'-' ∷ p.label)),
    ap (λ x. strchr x b'_') (append_assoc p.title (b'_' ∷ p.version) (b'-' ∷ p.label))
        ∙ strchr-append p.title (p.version ++ (b'-' ∷ p.label)) b'_' h.title_underscores,
  );
  whole = refl;
  service = refl;
  title = sym (
      ap₂ take (sym h.title_length) (append_assoc p.title (b'_' ∷ p.version) (b'-' ∷ p.label))
      ∙ take-append p.title _);
  whole_length = omega (
    arith,
    h.publisher_length,
    h.title_length,
    h.version_length,
    h.label_length,
    length-append p.publisher (b'-' ∷ (middle_of p ++ (b'-' ∷ p.label))),
    length-append p.title (b'_' ∷ p.version),
    length-append (middle_of p) (b'-' ∷ p.label),
  );
  service_length = omega (
    arith,
    h.publisher_length,
    h.title_length,
    h.version_length,
    h.label_length,
    length-append p.publisher (b'-' ∷ middle_of p),
    length-append p.title (b'_' ∷ p.version),
  );
  title_length = h.title_length;
  label_length = h.label_length;
})
