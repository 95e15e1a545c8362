-- ===== src/Package/Setup/OnDisk.antt =====
-- The files that a preparation has written when the steps that write them succeed.
use ps4rpi.Prelude.{
  ℕ, ◌≡◌, ◌≢◌, ◌⊎◌, inl, inr, refl, sym, ap, ◌∙◌, Bool, true, false, Option, none, some, Bytes,
  codes,
}
use ps4rpi.Files.{write_file}
use ps4rpi.Files.Writing.{IsHonest, write_file_iff}
use ps4rpi.Disk.{Disk, put, put_written, put_self, put_other, put_written_self}
use ps4rpi.Tls.{SslVerify}
use ps4rpi.Package.Inspect.{Inspected}
use ps4rpi.Package.{Host, World, ok, about, require}
use ps4rpi.Package.Frame.{after-ok}
use ps4rpi.Package.Setup.{write_trunc, write_icon, close_text, write_files}
use ps4rpi.Package.Setup.Unharmed.{write_trunc-Keeps, write_icon-Keeps}

module _ (h : Host) (error_buf_size : ℕ) (mode : SslVerify) where
  pub require-ok :
      (b : Bool) (message : Bytes) (w : World) {x : Unit {0}}
      → (require h error_buf_size mode b message w).0 ≡ ok x
      → b ≡ true
  unfolding require
  require-ok true message w e = refl
  require-ok false message w e = cc

  pub require_world :
      (b : Bool) (message : Bytes) (w : World) → (require h error_buf_size mode b message w).1 ≡ w
  unfolding require
  require_world true message w = refl
  require_world false message w = refl

  -- what `write_file_trunc` has written when it succeeds
  write_trunc_writes :
      (path content message : Bytes) (w : World) {x : Unit {0}}
      → IsHonest (h.sink path)
      → (write_trunc h error_buf_size mode path content message w).0 ≡ ok x
      → (write_trunc h error_buf_size mode path content message w).1.disk path ≡ some content
  unfolding write_trunc put_written
  write_trunc_writes path content message w honest e =
      let written = write_file (h.sink path) content in
      let all = require-ok written.status message _ e in
      let (opens, whole) = (write_file_iff (h.sink path) content honest).0 all in
      rw
        (require_world written.status message
          (record w { disk = put_written (h.sink path).opens path written w.disk }))
        (put_written_self (h.sink path).opens path content written w.disk opens whole)

  module _ (json sfo icon : Bytes) where
    -- The icon that was fetched is on the disk and the caller is told so, or there is none.
    abbrev pub IsIcon : Option Bytes → Bool → Disk → Type 0
    IsIcon fetched has_icon disk =
        ((has_icon ≡ true)
          × ((picture : Bytes) × (fetched ≡ some picture) × (disk icon ≡ some picture)))
        ⊎ ((has_icon ≡ false) × (fetched ≡ none) × (disk icon ≡ none))

    IsIcon-same :
        (o : Option Bytes) (b c : Bool) (d d' : Disk)
        → IsIcon o b d
        → b ≡ c
        → d icon ≡ d' icon
        → IsIcon o c d'
    IsIcon-same o b c d d' (inl (told, (picture, same, there))) e f =
        inl (sym e ∙ told, (picture, same, sym f ∙ there))
    IsIcon-same o b c d d' (inr (told, same, gone)) e f = inr (sym e ∙ told, same, sym f ∙ gone)

    write_icon_lem :
        (url : Bytes) (o : Option Bytes) (w : World) {has_icon : Bool} {w' : World}
        → IsHonest (h.sink icon)
        → w.disk icon ≡ none
        → write_icon h error_buf_size mode icon url o w ≡ (ok has_icon, w')
        → IsIcon o has_icon w'.disk
    unfolding write_icon
    write_icon_lem url none w {has_icon} {w'} honest gone e =
        let told : has_icon ≡ false = cc in
        let same : w ≡ w' = cc in inr (told, refl, ap (λ v. v.disk icon) (sym same) ∙ gone)
    write_icon_lem url (some picture) w {has_icon} {w'} honest gone e =
        after-ok (write_trunc h error_buf_size mode icon picture _) _ w e λ x wrote e1.
          let told : has_icon ≡ true = cc in
          let v = (write_trunc h error_buf_size mode icon picture _ w).1 in
          let same : v ≡ w' = cc in
          inl (
            told,
            (
              picture,
              refl,
              ap (λ u. u.disk icon) (sym same) ∙ write_trunc_writes icon picture _ w honest wrote,
            ),
          )

    other : {p q : Bytes} → p ≢ q → (r : Bytes) → r ≡ p → q ≢ r
    other ne r e s = ne (sym (s ∙ e))

    module _ (honest : (path : Bytes) → IsHonest (h.sink path)) (json_sfo : json ≢ sfo)
        (json_icon : json ≢ icon) (sfo_icon : sfo ≢ icon) where
      -- the three files after the step that writes them
      pub write_files_lem :
          (url : Bytes) (found : Inspected) (text : Bytes) (w : World) {has_icon : Bool}
          {w' : World}
          → w.disk icon ≡ none
          → write_files h error_buf_size mode json sfo icon url found text w ≡ (ok has_icon, w')
          → (w'.disk json ≡ some (h.printed text))
            × (w'.disk sfo ≡ some found.param_sfo)
            × IsIcon found.icon0_png has_icon w'.disk
      unfolding write_files close_text
      write_files_lem url found text w {has_icon} {w'} gone e =
          let m1 =
            write_trunc h error_buf_size mode sfo found.param_sfo
              (about (codes "Unable to write param.sfo file for '") url) in
          let m2 = write_icon h error_buf_size mode icon url found.icon0_png in
          after-ok m1 _ w e λ x1 wrote e1.
            let w1 = (m1 w).1 in
            after-ok m2 _ w1 e1 λ b drawn e2.
              let w2 = (m2 w1).1 in
              let told : b ≡ has_icon = cc (ap (λ p. p.0) e2) in
              let disk_now : put json (h.printed text) w2.disk ≡ w'.disk = ap (λ p. p.1.disk) e2 in
              let still_sfo : w2.disk sfo ≡ w1.disk sfo =
                (write_icon-Keeps h error_buf_size mode (λ q. q ≡ sfo) icon url found.icon0_png
                    (other sfo_icon)).keeps
                  w1 sfo refl in
              let still_gone : w1.disk icon ≡ w.disk icon =
                (write_trunc-Keeps h error_buf_size mode (λ q. q ≡ icon) sfo found.param_sfo _
                    (other (λ s. sfo_icon (sym s)))).keeps
                  w icon refl in
              let drawn_icon =
                write_icon_lem url found.icon0_png w1 {has_icon = b} {w' = w2} (honest icon)
                  (still_gone ∙ gone) (λ i. (drawn i, w2)) in
              (
                ap (λ d. d json) (sym disk_now) ∙ put_self json (h.printed text) w2.disk,
                ap (λ d. d sfo) (sym disk_now)
                    ∙ (put_other json sfo (h.printed text) w2.disk json_sfo
                        ∙ (still_sfo
                            ∙ write_trunc_writes sfo found.param_sfo _ w (honest sfo) wrote)),
                IsIcon-same found.icon0_png b has_icon w2.disk w'.disk drawn_icon told (
                    sym (put_other json icon (h.printed text) w2.disk json_icon)
                    ∙ ap (λ d. d icon) disk_now),
              )
