-- ===== src/Admin/SortParts.antt =====
-- The parts of the request for a link in the heading of the page `list` (src/AdminHTTPServer.cpp).
use relb.Prelude.{
  ℕ, ◌≡◌, refl, ap, ◌∙◌, Bool, true, false, not, List, [], ◌∷◌, ◌++◌, append_assoc, ◌==◌,
  if◌then◌else◌, codes, Free,
}
use relb.Address.{IpAddress, same_ip}
use relb.Config.Decimal.{write_number}
use relb.Admin.Listing.{Request}
use relb.Admin.Request.{ends_parameter, split}
use relb.Admin.Headings.{
  is_positive, Column, source, destination, state, duration, registered, column_text, part_if,
  sort_link,
}
use relb.Admin.Links.{write_ip, split-append, Free-append, write_ip-Free, write_number-Free}

-- The parts of a text that is there under a condition.
abbrev pub parts_if : Bool → List ℕ → List (List ℕ)
parts_if there text = if there then text ∷ [] else []

split-part_if :
    (there : Bool) (text rest : List ℕ)
    → Free ends_parameter text
    → split (part_if there text ++ rest) ≡ parts_if there text ++ split rest
split-part_if true text rest v =
    ap split (append_assoc text (38 ∷ []) rest) ∙ split-append text 38 rest v refl
split-part_if false text rest v = refl

split_four :
    (a b c d : Bool) (p q r t rest : List ℕ)
    → Free ends_parameter p
    → Free ends_parameter q
    → Free ends_parameter r
    → Free ends_parameter t
    → split (part_if a p ++ (part_if b q ++ (part_if c r ++ (part_if d t ++ rest))))
      ≡ parts_if a p ++ (parts_if b q ++ (parts_if c r ++ (parts_if d t ++ split rest)))
split_four a b c d p q r t rest u v w x =
    split-part_if a p (part_if b q ++ (part_if c r ++ (part_if d t ++ rest))) u
    ∙ ap (λ l. parts_if a p ++ l)
        (split-part_if b q (part_if c r ++ (part_if d t ++ rest)) v
          ∙ ap (λ l. parts_if b q ++ l)
              (split-part_if c r (part_if d t ++ rest) w
                ∙ ap (λ l. parts_if c r ++ l) (split-part_if d t rest x)))

-- The end of the request, behind the filters.
abbrev ending : Column → Bool → List ℕ
ending column ascending =
    codes "sort_by="
    ++ (column_text column
        ++ ((if ascending then [] else codes "&sort_asc=false") ++ codes " HTTP/1.1"))

abbrev pub last_parts : Column → Bool → List (List ℕ)
last_parts column ascending =
    (codes "sort_by=" ++ column_text column)
    ∷ (if ascending then codes "HTTP/1.1" ∷ [] else codes "sort_asc=false" ∷ codes "HTTP/1.1" ∷ [])

split-ending :
    (column : Column) (ascending : Bool)
    → split (ending column ascending) ≡ last_parts column ascending
unfolding split
split-ending source true = refl
split-ending source false = refl
split-ending destination true = refl
split-ending destination false = refl
split-ending state true = refl
split-ending state false = refl
split-ending duration true = refl
split-ending duration false = refl
split-ending registered true = refl
split-ending registered false = refl

regroup :
    (l p q r s t u v w x : List ℕ)
    → (l ++ ((p ++ (q ++ (r ++ (s ++ t)))) ++ (u ++ (v ++ w)))) ++ x
      ≡ l ++ (p ++ (q ++ (r ++ (s ++ (t ++ (u ++ (v ++ (w ++ x))))))))
regroup l p q r s t u v w x = simp append_assoc

-- The parts of the filters, where the status is none of them.
abbrev pub filter_parts : IpAddress → Request → List (List ℕ) → List (List ℕ)
filter_parts ip_none r rest =
    parts_if (not (same_ip r.src_filter ip_none)) (codes "src_ip=" ++ write_ip r.src_filter)
    ++ (parts_if (not (r.src_port == 0)) (codes "dst_port=" ++ write_number r.src_port)
        ++ (parts_if (not (same_ip r.dst_filter ip_none)) (codes "dst_ip=" ++ write_ip r.dst_filter)
            ++ (parts_if (not (r.dst_port == 0)) (codes "dst_port=" ++ write_number r.dst_port)
                ++ rest)))

src_ip-Free : (ip : IpAddress) → Free ends_parameter (codes "src_ip=" ++ write_ip ip)
src_ip-Free ip =
    Free-append (codes "src_ip=") (write_ip ip)
      (refl, (refl, (refl, (refl, (refl, (refl, (refl, tt))))))) (write_ip-Free ip)

dst_ip-Free : (ip : IpAddress) → Free ends_parameter (codes "dst_ip=" ++ write_ip ip)
dst_ip-Free ip =
    Free-append (codes "dst_ip=") (write_ip ip)
      (refl, (refl, (refl, (refl, (refl, (refl, (refl, tt))))))) (write_ip-Free ip)

dst_port-Free : (port : ℕ) → Free ends_parameter (codes "dst_port=" ++ write_number port)
dst_port-Free port =
    Free-append (codes "dst_port=") (write_number port)
      (refl, (refl, (refl, (refl, (refl, (refl, (refl, (refl, (refl, tt)))))))))
      (write_number-Free port)

module _ (show_status : ℕ → List ℕ) (ip_none : IpAddress) where
  pub sort_link-parts :
      (column : Column) (ascending : Bool) (r : Request)
      → r.status_filter ≡ 0
      → split (
          sort_link write_ip write_number show_status ip_none column ascending r
          ++ codes " HTTP/1.1")
        ≡ codes "list" ∷ filter_parts ip_none r (last_parts column ascending)
  unfolding sort_link
  sort_link-parts column ascending r none_asked =
      let src = not (same_ip r.src_filter ip_none) in
      let src_port = not (r.src_port == 0) in
      let dst = not (same_ip r.dst_filter ip_none) in
      let dst_port = not (r.dst_port == 0) in
      let src_text = codes "src_ip=" ++ write_ip r.src_filter in
      let src_port_text = codes "dst_port=" ++ write_number r.src_port in
      let dst_text = codes "dst_ip=" ++ write_ip r.dst_filter in
      let dst_port_text = codes "dst_port=" ++ write_number r.dst_port in
      let no_status : part_if (is_positive r.status_filter)
            (codes "status=" ++ show_status r.status_filter)
          ≡ [] =
        rw none_asked refl in
      ap split (
        regroup (codes "list?") (part_if src src_text) (part_if src_port src_port_text)
          (part_if dst dst_text) (part_if dst_port dst_port_text)
          (part_if (is_positive r.status_filter) (codes "status=" ++ show_status r.status_filter))
          (codes "sort_by=") (column_text column)
          (if ascending then [] else codes "&sort_asc=false") (codes " HTTP/1.1"))
      ∙ ap
          (λ t. split (
            codes "list?"
            ++ (part_if src src_text
                ++ (part_if src_port src_port_text
                    ++ (part_if dst dst_text
                        ++ (part_if dst_port dst_port_text ++ (t ++ ending column ascending)))))))
          no_status
      ∙ split-append (codes "list") 63
          (part_if src src_text
            ++ (part_if src_port src_port_text
                ++ (part_if dst dst_text
                    ++ (part_if dst_port dst_port_text ++ ending column ascending))))
          (refl, (refl, (refl, (refl, tt)))) refl
      ∙ ap (λ l. codes "list" ∷ l)
          (split_four src src_port dst dst_port src_text src_port_text dst_text dst_port_text
              (ending column ascending) (src_ip-Free r.src_filter) (dst_port-Free r.src_port)
              (dst_ip-Free r.dst_filter) (dst_port-Free r.dst_port)
            ∙ ap (filter_parts ip_none r) (split-ending column ascending))
