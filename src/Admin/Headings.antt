-- ===== src/Admin/Headings.antt =====
-- The links in the heading of the page `list` (`AdminHTTPServer::list` of src/AdminHTTPServer.cpp), which ask
-- for the same connections in another order.
use relb.Prelude.{◌&&◌, ℕ, Bool, not, List, [], ◌∷◌, ◌++◌, ◌==◌, ltb, if◌then◌else◌, codes}
use relb.Address.{IpAddress, same_ip}
use relb.Admin.Listing.{Request}

-- The five columns that can be sorted by.
pub data Column : Type 0 where
  source : Column
  destination : Column
  state : Column
  duration : Column
  registered : Column

abbrev pub column_text : Column → List ℕ
column_text source = codes "src"
column_text destination = codes "dst"
column_text state = codes "stts"
column_text duration = codes "mod"
column_text registered = codes "creat"

-- SORT_BY_SRC_IP and the others.
abbrev pub column_code : Column → ℕ
column_code source = 1
column_code destination = 2
column_code state = 3
column_code duration = 4
column_code registered = 5

-- `status_filter > 0`, on the bits of the `int`.
abbrev pub is_positive : ℕ → Bool
is_positive n = ltb 0 n && ltb n 2147483648

-- A part of the text that is there under a condition.
abbrev pub part_if : Bool → List ℕ → List ℕ
part_if there text = if there then text ++ 38 ∷ [] else []

module _ (show_ip : IpAddress → List ℕ) (show_number show_status : ℕ → List ℕ)
    (ip_none : IpAddress) where
  -- The source's port is written with the name of the destination's.
  unfoldable pub filters : Request → List ℕ
  filters r =
      part_if (not (same_ip r.src_filter ip_none)) (codes "src_ip=" ++ show_ip r.src_filter)
      ++ (part_if (not (r.src_port == 0)) (codes "dst_port=" ++ show_number r.src_port)
          ++ (part_if (not (same_ip r.dst_filter ip_none)) (codes "dst_ip=" ++ show_ip r.dst_filter)
              ++ (part_if (not (r.dst_port == 0)) (codes "dst_port=" ++ show_number r.dst_port)
                  ++ part_if (is_positive r.status_filter)
                      (codes "status=" ++ show_status r.status_filter))))

  -- The two links of a column, "a" and "d", without the quotes.
  unfoldable pub sort_link : Column → Bool → Request → List ℕ
  unfolding filters
  sort_link column ascending r =
      codes "list?"
      ++ (filters r
          ++ (codes "sort_by="
              ++ (column_text column ++ (if ascending then [] else codes "&sort_asc=false"))))
