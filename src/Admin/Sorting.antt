-- ===== src/Admin/Sorting.antt =====
-- What the links in the heading of the page `list` ask for (src/AdminHTTPServer.cpp).
use relb.Prelude.{
  ℕ, ◌<◌, ◌≡◌, refl, ap, sym, ◌∙◌, Bool, true, false, not, Bool-cases, inl, inr, some, List, [],
  ◌∷◌, ◌++◌, ◌==◌, if◌then◌else◌, arith, codes,
}
use mathlib.Core.Path.{fun_ext}
use relb.Prelude.Int.{ℤ, pos}
use relb.Address.{IpAddress, IsIp, same_ip, same_ip_iff}
use relb.Config.Decimal.{write_number}
use relb.Admin.Listing.{Request}
use relb.Admin.Request.{sort_of, parameter, parameters, all_connections, list_page, list_request}
use relb.Admin.Headings.{
  Column, source, destination, state, duration, registered, column_code, sort_link,
}
use relb.Admin.Commanded.{request_for}
use relb.Admin.Links.{write_ip, char_to_ipaddress-write_ip, port_parameter, request_page}
use relb.Admin.SortParts.{parts_if, last_parts, sort_link-parts}

module _ (byte : ℤ → ℕ) (ip_none : IpAddress) where
  parameters-append :
      (xs ys : List (List ℕ)) (r : Request)
      → parameters byte ip_none (xs ++ ys) r
        ≡ parameters byte ip_none ys (parameters byte ip_none xs r)
  unfolding parameters
  parameters-append [] ys r = refl
  parameters-append (x ∷ xs) ys r = parameters-append xs ys (parameter byte ip_none x r)

  parameters-last :
      (column : Column) (ascending : Bool) (r : Request)
      → parameters byte ip_none (last_parts column ascending) (record r { ascending = true })
        ≡ record r { sort_by = column_code column; ascending = ascending }
  unfolding parameters parameter sort_of
  parameters-last source true r = refl
  parameters-last source false r = refl
  parameters-last destination true r = refl
  parameters-last destination false r = refl
  parameters-last state true r = refl
  parameters-last state false r = refl
  parameters-last duration true r = refl
  parameters-last duration false r = refl
  parameters-last registered true r = refl
  parameters-last registered false r = refl

zero_or : (n : ℕ) → (if n == 0 then 0 else n) ≡ n
zero_or n = ground arith

module _ (byte : ℤ → ℕ) (ip_none : IpAddress) (keep : (n : ℕ) → n < 256 → byte (pos n) ≡ n) where
  abbrev read : List (List ℕ) → Request → Request
  read = parameters byte ip_none

  -- One filter, on what was read before.
  read_src :
      (ip : IpAddress) (rest : List (List ℕ)) (r : Request)
      → IsIp ip
      → r.src_filter ≡ ip_none
      → read (parts_if (not (same_ip ip ip_none)) (codes "src_ip=" ++ write_ip ip) ++ rest) r
        ≡ read rest (record r { src_filter = ip })
  unfolding parameters parameter
  read_src ip rest r v e = elim (Bool-cases (same_ip ip ip_none)) [
    | inl same ↦
        rw same (
          ap (λ f. read rest (record r { src_filter = f })) (e ∙ sym (same_ip_iff ip ip_none same)))
    | inr other ↦ rw other (
        ap (λ f. read rest (record r { src_filter = f }))
          (char_to_ipaddress-write_ip byte ip_none keep ip v))
  ]

  read_dst :
      (ip : IpAddress) (rest : List (List ℕ)) (r : Request)
      → IsIp ip
      → r.dst_filter ≡ ip_none
      → read (parts_if (not (same_ip ip ip_none)) (codes "dst_ip=" ++ write_ip ip) ++ rest) r
        ≡ read rest (record r { dst_filter = ip })
  unfolding parameters parameter
  read_dst ip rest r v e = elim (Bool-cases (same_ip ip ip_none)) [
    | inl same ↦
        rw same (
          ap (λ f. read rest (record r { dst_filter = f })) (e ∙ sym (same_ip_iff ip ip_none same)))
    | inr other ↦ rw other (
        ap (λ f. read rest (record r { dst_filter = f }))
          (char_to_ipaddress-write_ip byte ip_none keep ip v))
  ]

  read_port :
      (port : ℕ) (rest : List (List ℕ)) (r : Request)
      → port < 65536
      → read (parts_if (not (port == 0)) (codes "dst_port=" ++ write_number port) ++ rest) r
        ≡ read rest (record r { dst_port = (if port == 0 then r.dst_port else port) })
  unfolding parameters
  read_port port rest r h = elim (Bool-cases (port == 0)) [
    | inl e ↦ rw e refl
    | inr e ↦ rw e (ap (read rest) (port_parameter byte ip_none keep port r h))
  ]

  -- Following one of the two links of a column, on a page whose request asks for no status, asks for the
  -- same connections, sorted by this column in the direction of the link, but for the port of the source: it is
  -- asked for as the port of the destination, or lost where there is one. This is so if addresses are
  -- printed as four decimal numbers with points, ports as decimal numbers, and the constructor of addresses
  -- keeps the numbers below 256.
  pub list_request-sort_link :
      (show_ip : IpAddress → List ℕ) (show_number show_status : ℕ → List ℕ) (column : Column)
      (ascending : Bool) (r : Request)
      → ((i : IpAddress) → show_ip i ≡ write_ip i)
      → ((n : ℕ) → show_number n ≡ write_number n)
      → IsIp r.src_filter
      → IsIp r.dst_filter
      → r.src_port < 65536
      → r.dst_port < 65536
      → r.status_filter ≡ 0
      → list_request byte ip_none
          (request_for (sort_link show_ip show_number show_status ip_none column ascending r))
        ≡ some (record {
          src_filter = r.src_filter;
          dst_filter = r.dst_filter;
          src_port = 0;
          dst_port = (if r.dst_port == 0 then r.src_port else r.dst_port);
          status_filter = 0;
          sort_by = column_code column;
          ascending = ascending;
        })
  list_request-sort_link show_ip show_number show_status column ascending r e f u v h k z =
      let text = λ (si : IpAddress → List ℕ) (sn : ℕ → List ℕ).
        request_for (sort_link si sn show_status ip_none column ascending r) in
      let last = last_parts column ascending in
      let after_dst =
        parts_if (not (r.dst_port == 0)) (codes "dst_port=" ++ write_number r.dst_port) ++ last in
      let after_src =
        parts_if (not (same_ip r.dst_filter ip_none)) (codes "dst_ip=" ++ write_ip r.dst_filter)
        ++ after_dst in
      let a = all_connections byte ip_none in
      let b : Request = record a { src_filter = r.src_filter } in
      let c : Request = record b { dst_port = (if r.src_port == 0 then 0 else r.src_port) } in
      let d : Request = record c { dst_filter = r.dst_filter } in
      let asked : Request = record d {
        dst_port = (if r.dst_port == 0 then d.dst_port else r.dst_port);
      } in
      ap (λ si. list_request byte ip_none (text si show_number)) (fun_ext e)
      ∙ ap (λ sn. list_request byte ip_none (text write_ip sn)) (fun_ext f)
      ∙ request_page byte ip_none keep (
          sort_link write_ip write_number show_status ip_none column ascending r
          ++ codes " HTTP/1.1")
      ∙ ap (list_page byte ip_none) (sort_link-parts show_status ip_none column ascending r z)
      ∙ ap some (
          read_src r.src_filter
            (parts_if (not (r.src_port == 0)) (codes "dst_port=" ++ write_number r.src_port)
              ++ after_src)
            a u refl
          ∙ read_port r.src_port after_src b h
          ∙ read_dst r.dst_filter after_dst c v refl
          ∙ read_port r.dst_port last d k
          ∙ parameters-last byte ip_none column ascending asked
          ∙ ap
              (λ n. record asked {
                dst_port = (if r.dst_port == 0 then n else r.dst_port);
                sort_by = column_code column;
                ascending = ascending;
              })
              (zero_or r.src_port))
