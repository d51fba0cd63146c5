-- ===== src/Admin/Links.antt =====
-- What the links of the page `servers` ask for (src/AdminHTTPServer.cpp).
use relb.Prelude.{
  ℕ, ◌%◌, ◌<◌, ◌≡◌, refl, ap, ◌∙◌, true, some, List, [], ◌∷◌, ◌++◌, append_assoc, arith, codes,
  Free,
}
use relb.Prelude.Int.{ℤ, pos}
use relb.Address.{IpAddress, IsIp}
use relb.Parse.{IsNumber, decimal, char_to_ipaddress, char_to_ipaddress-decimal}
use relb.Config.Endpoint.{to_port}
use relb.Config.Decimal.{write_number, write_number-IsNumber, decimal-write_number, atoi-end}
use relb.Admin.Listing.{Request}
use relb.Admin.Request.{
  ends_parameter, split, parameter, parameters, all_connections, list_page, list_request,
  server_link,
}

-- An address as four numbers with points between them.
abbrev pub write_ip : IpAddress → List ℕ
write_ip ip =
    write_number ip.a
    ++ 46 ∷ (write_number ip.b ++ 46 ∷ (write_number ip.c ++ 46 ∷ write_number ip.d))

pub Free-append :
    (xs ys : List ℕ)
    → Free ends_parameter xs
    → Free ends_parameter ys
    → Free ends_parameter (xs ++ ys)
Free-append [] ys v w = w
Free-append (x ∷ xs) ys v w = (v.0, Free-append xs ys v.1 w)

number-Free : (ds : List ℕ) → IsNumber ds → Free ends_parameter ds
number-Free [] v = tt
number-Free (d ∷ ds) v = (ground (arith, v.0), number-Free ds v.1)

pub write_number-Free : (n : ℕ) → Free ends_parameter (write_number n)
write_number-Free n = number-Free (write_number n) (write_number-IsNumber n)

pub write_ip-Free : (ip : IpAddress) → Free ends_parameter (write_ip ip)
write_ip-Free ip = Free-append (write_number ip.a) _ (write_number-Free ip.a) (
  refl,
  Free-append (write_number ip.b) _ (write_number-Free ip.b) (
    refl,
    Free-append (write_number ip.c) _ (write_number-Free ip.c) (refl, write_number-Free ip.d),
  ),
)

pub split-append :
    (w : List ℕ) (d : ℕ) (rest : List ℕ)
    → Free ends_parameter w
    → ends_parameter d ≡ true
    → split (w ++ d ∷ rest) ≡ w ∷ split rest
unfolding split
split-append [] d rest v h = rw h refl
split-append (c ∷ cs) d rest v h = rw (v.0, split-append cs d rest v.1 h) refl

last_part : split (codes "HTTP/1.1") ≡ codes "HTTP/1.1" ∷ []
unfolding split
last_part = refl

-- The parts of the line of a request with an address and a port.
pub request_parts :
    (page ip_name port_name : List ℕ) (ip : IpAddress) (port : ℕ)
    → Free ends_parameter page
    → Free ends_parameter ip_name
    → Free ends_parameter port_name
    → split (
        page
        ++ 63
          ∷ ((ip_name ++ write_ip ip)
              ++ 38 ∷ ((port_name ++ write_number port) ++ 32 ∷ codes "HTTP/1.1")))
      ≡ page ∷ (ip_name ++ write_ip ip) ∷ (port_name ++ write_number port) ∷ codes "HTTP/1.1" ∷ []
request_parts page ip_name port_name ip port u v w =
    let asked = ip_name ++ write_ip ip in
    let at = port_name ++ write_number port in
    let ip_free : Free ends_parameter asked =
      Free-append ip_name (write_ip ip) v (write_ip-Free ip) in
    let port_free : Free ends_parameter at =
      Free-append port_name (write_number port) w (write_number-Free port) in
    split-append page 63 (asked ++ 38 ∷ (at ++ 32 ∷ codes "HTTP/1.1")) u refl
    ∙ ap (◌∷◌ page) (
        split-append asked 38 (at ++ 32 ∷ codes "HTTP/1.1") ip_free refl
        ∙ ap (◌∷◌ asked)
            (split-append at 32 (codes "HTTP/1.1") port_free refl ∙ ap (◌∷◌ at) last_part))

module _ (byte : ℤ → ℕ) (ip_none : IpAddress) (keep : (n : ℕ) → n < 256 → byte (pos n) ≡ n) where
  pub char_to_ipaddress-write_ip :
      (ip : IpAddress) → IsIp ip → char_to_ipaddress byte ip_none (some (write_ip ip)) ≡ ip
  char_to_ipaddress-write_ip ip v =
      let num = write_number-IsNumber in
      let fits : (n : ℕ) → n < 256 → decimal 0 (write_number n) < 256 =
        λ n h. rw (decimal-write_number n) h in
      char_to_ipaddress-decimal (write_number ip.a) (write_number ip.b) (write_number ip.c)
        (write_number ip.d) (num ip.a) (num ip.b) (num ip.c) (num ip.d) byte ip_none keep
        (fits ip.a v.fits_a) (fits ip.b v.fits_b) (fits ip.c v.fits_c) (fits ip.d v.fits_d)
      ∙ rw
          (
            decimal-write_number ip.a,
            decimal-write_number ip.b,
            decimal-write_number ip.c,
            decimal-write_number ip.d,
          )
          refl

  ip_parameter :
      (ip : IpAddress) (r : Request)
      → IsIp ip
      → parameter byte ip_none (codes "dst_ip=" ++ write_ip ip) r ≡ record r { dst_filter = ip }
  unfolding parameter
  ip_parameter ip r v = ap (λ f. record r { dst_filter = f }) (char_to_ipaddress-write_ip ip v)

  pub port_parameter :
      (port : ℕ) (r : Request)
      → port < 65536
      → parameter byte ip_none (codes "dst_port=" ++ write_number port) r
        ≡ record r { dst_port = port }
  unfolding parameter
  port_parameter port r h =
      let fits : port % 65536 ≡ port = omega arith in
      ap (λ x. record r { dst_port = to_port x }) (atoi-end port)
      ∙ ap (λ n. record r { dst_port = n }) fits

  link_parts :
      (ip : IpAddress) (port : ℕ)
      → split (
          codes "list?dst_ip="
          ++ (write_ip ip ++ (codes "&dst_port=" ++ (write_number port ++ codes " HTTP/1.1"))))
        ≡ codes "list"
          ∷ (codes "dst_ip=" ++ write_ip ip)
          ∷ (codes "dst_port=" ++ write_number port)
          ∷ codes "HTTP/1.1"
          ∷ []
  link_parts ip port =
      request_parts (codes "list") (codes "dst_ip=") (codes "dst_port=") ip port
        (refl, (refl, (refl, (refl, tt))))
        (refl, (refl, (refl, (refl, (refl, (refl, (refl, tt)))))))
        (refl, (refl, (refl, (refl, (refl, (refl, (refl, (refl, (refl, tt)))))))))

  other_parameter : (r : Request) → parameter byte ip_none (codes "HTTP/1.1") r ≡ r
  unfolding parameter
  other_parameter r = refl

  pub request_page :
      (text : List ℕ)
      → list_request byte ip_none (codes "GET /" ++ text) ≡ list_page byte ip_none (split text)
  unfolding list_request
  request_page text = refl

  link_text :
      (show_ip : IpAddress → List ℕ) (show_number : ℕ → List ℕ) (ip : IpAddress) (port : ℕ)
      → show_ip ip ≡ write_ip ip
      → show_number port ≡ write_number port
      → server_link show_ip show_number ip port ++ codes " HTTP/1.1"
        ≡ codes "list?dst_ip="
          ++ (write_ip ip ++ (codes "&dst_port=" ++ (write_number port ++ codes " HTTP/1.1")))
  unfolding server_link
  link_text show_ip show_number ip port e f =
      rw (e, f)
        (ap (λ t. codes "list?dst_ip=" ++ t)
          (append_assoc (write_ip ip) (codes "&dst_port=" ++ write_number port)
            (codes " HTTP/1.1")))

  link_parameters :
      (ip : IpAddress) (port : ℕ) (r : Request)
      → IsIp ip
      → port < 65536
      → parameters byte ip_none
          ((codes "dst_ip=" ++ write_ip ip)
            ∷ (codes "dst_port=" ++ write_number port)
            ∷ codes "HTTP/1.1"
            ∷ [])
          r
        ≡ record r { dst_filter = ip; dst_port = port }
  unfolding parameters
  link_parameters ip port r v h =
      let rest = λ (s : Request). parameter byte ip_none (codes "HTTP/1.1") s in
      ap (λ s. rest (parameter byte ip_none (codes "dst_port=" ++ write_number port) s))
        (ip_parameter ip r v)
      ∙ ap rest (port_parameter port (record r { dst_filter = ip }) h)
      ∙ other_parameter (record r { dst_filter = ip; dst_port = port })

  -- A request for the link to the connections of a server is read as a request for exactly the
  -- connections of this address and port, all others of the filters empty: if addresses are printed as
  -- four decimal numbers with points, ports as decimal numbers, and the constructor of addresses keeps the
  -- numbers below 256.
  list_request-server_link :
      (show_ip : IpAddress → List ℕ) (show_number : ℕ → List ℕ) (ip : IpAddress) (port : ℕ)
      → ((i : IpAddress) → show_ip i ≡ write_ip i)
      → ((n : ℕ) → show_number n ≡ write_number n)
      → IsIp ip
      → port < 65536
      → list_request byte ip_none
          (codes "GET /" ++ (server_link show_ip show_number ip port ++ codes " HTTP/1.1"))
        ≡ some (record (all_connections byte ip_none) { dst_filter = ip; dst_port = port })
  list_request-server_link show_ip show_number ip port e f v h =
      request_page (server_link show_ip show_number ip port ++ codes " HTTP/1.1")
      ∙ ap (λ t. list_page byte ip_none (split t))
          (link_text show_ip show_number ip port (e ip) (f port))
      ∙ ap (list_page byte ip_none) (link_parts ip port)
      ∙ ap some (link_parameters ip port (all_connections byte ip_none) v h)
