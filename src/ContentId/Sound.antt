-- ===== src/ContentId/Sound.antt =====
-- What an accepted content id looks like, and what is read from it.
use ps4rpi.Prelude.{
  ◌-◌, ◌≤◌, ◌≡◌, refl, sym, ap, ap₂, ◌∙◌, some, ◌∷◌, ◌++◌, arith, ◌==◌, ==_iff, length,
  length-append, length-take, take, take_all, take-append, append_assoc, Bytes, Lacks, strchr,
  strrchr, strchr_sound, strrchr_sound, cut_unique, next_char, after-some, after-guard,
}
use ps4rpi.ContentId.{
  ContentInfo, parse_content_id, content_id_size, service_id_size, title_id_size, label_size,
}

-- `s` is 36 bytes with exactly two dashes, the second at index 19 and so before the last 16 bytes,
-- which are the label, and an underscore behind the first; the title is the nine bytes behind the
-- first.
pub record IsSplit (s : Bytes) (info : ContentInfo) : Type 0 where
  pub publisher : Bytes
  pub middle : Bytes
  pub splits : s ≡ publisher ++ (b'-' ∷ (middle ++ (b'-' ∷ info.label)))
  pub publisher_dashes : Lacks b'-' publisher
  pub middle_dashes : Lacks b'-' middle
  pub label_dashes : Lacks b'-' info.label
  pub underscore : (q : Bytes) × (strchr (middle ++ (b'-' ∷ info.label)) b'_' ≡ some q)
  pub whole : info.content_id ≡ s
  pub service : info.service_id ≡ publisher ++ (b'-' ∷ middle)
  pub title : info.title_id ≡ take 9 (middle ++ (b'-' ∷ info.label))
  pub whole_length : length info.content_id ≡ 36
  pub service_length : length info.service_id ≡ 19
  pub title_length : length info.title_id ≡ 9
  pub label_length : length info.label ≡ 16

parse_steps :
    (s : Bytes) {info : ContentInfo}
    → parse_content_id (some s) ≡ some info
    → (p1 : Bytes) × (p2 : Bytes) × (p3 : Bytes) × (strchr s b'-' ≡ some p1)
      × (strchr (next_char p1) b'-' ≡ some p2)
      × (strrchr s b'-' ≡ some p3)
      × (length s ≡ 36)
      × (length s - length p2 ≡ 19)
      × ((q : Bytes) × (strchr (next_char p1) b'_' ≡ some q))
      × (length (take 9 (next_char p1)) ≡ 9)
      × (length (take 16 (next_char p3)) ≡ 16)
      × (info ≡ record {
        content_id = take 36 s;
        service_id = take 19 s;
        title_id = take 9 (next_char p1);
        label = take 16 (next_char p3);
      })
unfolding parse_content_id
parse_steps s {info} e = after-guard (length s == content_id_size) _ e λ len e1.
    after-some (strchr s b'-') _ e1 λ p1 f1 e2.
      after-some (strchr (next_char p1) b'-') _ e2 λ p2 f2 e3.
        after-guard (length s - length p2 == service_id_size) _ e3 λ at e4.
          after-guard (length (take 19 s) == service_id_size) _ e4 λ sl e5.
            after-some (strchr (next_char p1) b'_') _ e5 λ p2' f2' e6.
              after-guard (length (take 9 (next_char p1)) == title_id_size) _ e6 λ tl e7.
                after-some (strrchr s b'-') _ e7 λ p3 f3 e8.
                  after-guard (length (take 16 (next_char p3)) == label_size) _ e8 λ ll e9. (
                    p1,
                    p2,
                    p3,
                    f1,
                    f2,
                    f3,
                    (==_iff _ _).0 len,
                    (==_iff _ _).0 at,
                    (p2', f2'),
                    (==_iff _ _).0 tl,
                    (==_iff _ _).0 ll,
                    cc e9,
                  )

-- A content id that is accepted is split at its two dashes, and what is read from it is what the
-- split says.
pub parse_content_id_sound :
    (s : Bytes) {info : ContentInfo} → parse_content_id (some s) ≡ some info → IsSplit s info
parse_content_id_sound s {info} e =
    let (p1, p2, p3, f1, f2, f3, len, at, (q, fq), tl, ll, same) = parse_steps s e in
    let (publisher, t1, at1, whole1, dashes1) = strchr_sound s b'-' f1 in
    let next1 : next_char p1 ≡ t1 = ap next_char at1 in
    let (middle, t2, at2, whole2, dashes2) = strchr_sound t1 b'-' (rw next1 at f2) in
    let (front, t3, at3, whole3, dashes3) = strrchr_sound s b'-' f3 in
    let next3 : next_char p3 ≡ t3 = ap next_char at3 in
    let len2 : length t2 ≡ 16 = omega (arith, ap length at2) in
    let whole : s ≡ publisher ++ (b'-' ∷ (middle ++ (b'-' ∷ t2))) =
      whole1 ∙ ap (λ x. publisher ++ (b'-' ∷ x)) whole2 in
    let cut : s ≡ (publisher ++ (b'-' ∷ middle)) ++ (b'-' ∷ t2) =
      whole ∙ sym (append_assoc publisher (b'-' ∷ middle) (b'-' ∷ t2)) in
    let len3 : 16 ≤ length t3 = omega (arith, rw next3 at ll, length-take 16 t3) in
    let label : t2 ≡ t3 =
      cut_unique (publisher ++ (b'-' ∷ middle)) front t2 t3 b'-' (sym cut ∙ whole3) dashes3
        (omega arith) in
    let len_front : length (publisher ++ (b'-' ∷ middle)) ≡ 19 =
      omega (arith, ap length cut, length-append (publisher ++ (b'-' ∷ middle)) (b'-' ∷ t2)) in
    let take_label : take 16 (next_char p3) ≡ t2 =
      ap (take 16) (next3 ∙ sym label) ∙ take_all 16 t2 (omega arith) in
    let take_service : take 19 s ≡ publisher ++ (b'-' ∷ middle) =
      ap₂ take (sym len_front) cut ∙ take-append (publisher ++ (b'-' ∷ middle)) (b'-' ∷ t2) in
    let take_whole : take 36 s ≡ s = take_all 36 s (omega arith) in
    rw (same, take_label, take_service, take_whole)
      (record {
        publisher = publisher;
        middle = middle;
        splits = whole;
        publisher_dashes = dashes1;
        middle_dashes = dashes2;
        label_dashes = rw label dashes3;
        underscore = (q, rw (← whole2, ← next1) fq);
        whole = refl;
        service = refl;
        title = ap (take 9) (next1 ∙ whole2);
        whole_length = len;
        service_length = len_front;
        title_length = tl;
        label_length = len2;
      })
