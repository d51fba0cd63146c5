-- ===== src/Admin/Commanded.antt =====
-- What the links kick, ban and ban_all of a row do (src/AdminHTTPServer.cpp).
use relb.Prelude.{
  ℕ, ◌%◌, ◌<◌, ◌≡◌, refl, ap, ◌∙◌, Bool, some, List, [], ◌∷◌, ◌++◌, append_assoc, codes, Free,
  arith,
}
use relb.Prelude.Int.{ℤ, pos}
use relb.Address.{IpAddress, IsIp}
use relb.Parse.{atoi}
use relb.Config.Endpoint.{to_port}
use relb.Config.Decimal.{write_number, atoi-end}
use relb.Admin.State.{AdminServer, kick, ban, ban_all}
use relb.Admin.Request.{ends_parameter, split}
use relb.Admin.Pages.{run_command, command_page, command_request, command_link}
use relb.Admin.Links.{write_ip, request_parts, char_to_ipaddress-write_ip}

-- The line that a browser sends for a link.
abbrev pub request_for : List ℕ → List ℕ
request_for link = codes "GET /" ++ (link ++ codes " HTTP/1.1")

link_line :
    (show_ip : IpAddress → List ℕ) (show_number : ℕ → List ℕ) (page : List ℕ) (ip : IpAddress)
    (port : ℕ)
    → show_ip ip ≡ write_ip ip
    → show_number port ≡ write_number port
    → command_link show_ip show_number page ip port ++ codes " HTTP/1.1"
      ≡ page
        ++ 63
          ∷ ((codes "src_ip=" ++ write_ip ip)
              ++ 38 ∷ ((codes "src_port=" ++ write_number port) ++ 32 ∷ codes "HTTP/1.1"))
unfolding command_link
link_line show_ip show_number page ip port e f =
    let end = codes " HTTP/1.1" in
    let at : List ℕ → List ℕ = λ t. codes "&src_port=" ++ t in
    ap (λ t. (page ++ (codes "?src_ip=" ++ (t ++ at (show_number port)))) ++ end) e
    ∙ ap (λ t. (page ++ (codes "?src_ip=" ++ (write_ip ip ++ at t))) ++ end) f
    ∙ append_assoc page (codes "?src_ip=" ++ (write_ip ip ++ at (write_number port))) end
    ∙ ap (λ t. page ++ (codes "?src_ip=" ++ t))
        (append_assoc (write_ip ip) (at (write_number port)) end)

-- The parts of the request for such a link.
abbrev parts_for : List ℕ → IpAddress → ℕ → List (List ℕ)
parts_for page ip port =
    page
    ∷ (codes "src_ip=" ++ write_ip ip)
    ∷ (codes "src_port=" ++ write_number port)
    ∷ codes "HTTP/1.1"
    ∷ []

module _ (byte : ℤ → ℕ) (ip_none : IpAddress) (keep : (n : ℕ) → n < 256 → byte (pos n) ≡ n) where
  link_page :
      (show_ip : IpAddress → List ℕ) (show_number : ℕ → List ℕ) (page : List ℕ) (ip : IpAddress)
      (port : ℕ) (a : AdminServer)
      → show_ip ip ≡ write_ip ip
      → show_number port ≡ write_number port
      → Free ends_parameter page
      → command_request byte ip_none (request_for (command_link show_ip show_number page ip port)) a
        ≡ command_page byte ip_none (parts_for page ip port) a
  unfolding command_request
  link_page show_ip show_number page ip port a e f v =
      ap (λ t. command_page byte ip_none (split t) a)
        (link_line show_ip show_number page ip port e f)
      ∙ ap (λ t. command_page byte ip_none t a)
          (request_parts page (codes "src_ip=") (codes "src_port=") ip port v
            (refl, (refl, (refl, (refl, (refl, (refl, (refl, tt)))))))
            (refl, (refl, (refl, (refl, (refl, (refl, (refl, (refl, (refl, tt))))))))))

  command_run :
      (f : IpAddress → ℕ → AdminServer → AdminServer × Bool) (ip : IpAddress) (port : ℕ)
      (a : AdminServer)
      → IsIp ip
      → port < 65536
      → run_command byte ip_none f (some (write_ip ip)) (some (write_number port)) a
        ≡ some (f ip port a)
  unfolding run_command
  command_run f ip port a v h =
      let fits : port % 65536 ≡ port = omega arith in
      ap (λ i. some (f i (to_port (atoi (write_number port))) a))
        (char_to_ipaddress-write_ip byte ip_none keep ip v)
      ∙ ap (λ n. some (f ip (to_port n) a)) (atoi-end port)
      ∙ ap (λ n. some (f ip n a)) fits

  pages_run :
      (ip : IpAddress) (port : ℕ) (a : AdminServer)
      → (command_page byte ip_none (parts_for (codes "kick") ip port) a
          ≡ run_command byte ip_none kick (some (write_ip ip)) (some (write_number port)) a)
        × (command_page byte ip_none (parts_for (codes "ban") ip port) a
            ≡ run_command byte ip_none ban (some (write_ip ip)) (some (write_number port)) a)
        × (command_page byte ip_none (parts_for (codes "ban_all") ip port) a
            ≡ run_command byte ip_none ban_all (some (write_ip ip)) (some (write_number port)) a)
  unfolding command_page
  pages_run ip port a = (refl, refl, refl)

  -- The links kick, ban and ban_all of a row, when a browser asks for them, are read as requests for
  -- the page, the address and the port of this row: each does what the operation of its name does, if
  -- addresses are printed as four decimal numbers with points, ports as decimal numbers, and the
  -- constructor of addresses keeps the numbers below 256.
  pub command_request-command_link :
      (show_ip : IpAddress → List ℕ) (show_number : ℕ → List ℕ) (ip : IpAddress) (port : ℕ)
      (a : AdminServer)
      → ((i : IpAddress) → show_ip i ≡ write_ip i)
      → ((n : ℕ) → show_number n ≡ write_number n)
      → IsIp ip
      → port < 65536
      → (command_request byte ip_none
            (request_for (command_link show_ip show_number (codes "kick") ip port))
            a
          ≡ some (kick ip port a))
        × (command_request byte ip_none
              (request_for (command_link show_ip show_number (codes "ban") ip port))
              a
            ≡ some (ban ip port a))
        × (command_request byte ip_none
              (request_for (command_link show_ip show_number (codes "ban_all") ip port))
              a
            ≡ some (ban_all ip port a))
  command_request-command_link show_ip show_number ip port a e f v h =
      let runs = pages_run ip port a in
      (
        link_page show_ip show_number (codes "kick") ip port a (e ip) (f port)
              (refl, (refl, (refl, (refl, tt))))
            ∙ runs.0
            ∙ command_run kick ip port a v h,
        link_page show_ip show_number (codes "ban") ip port a (e ip) (f port)
              (refl, (refl, (refl, tt)))
            ∙ runs.1
            ∙ command_run ban ip port a v h,
        link_page show_ip show_number (codes "ban_all") ip port a (e ip) (f port)
              (refl, (refl, (refl, (refl, (refl, (refl, (refl, tt)))))))
            ∙ runs.2
            ∙ command_run ban_all ip port a v h,
      )
