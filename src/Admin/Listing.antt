-- ===== src/Admin/Listing.antt =====
-- The connections that the page `list` of `AdminHTTPServer` (src/AdminHTTPServer.cpp) shows, and their
-- order.
use relb.Prelude.{
  ℕ, Bool, true, false, not, ◌&&◌, ◌||◌, Option, List, [], ◌∷◌, ◌==◌, ltb, leb, if◌then◌else◌,
}
use relb.Address.{IpAddress, same_ip, ip_less_than}
use relb.Status.{has}
use relb.ServerList.State.{PeerInfo}

-- What is copied of a connection.
pub record Row : Type 0 where
  pub src_ip : IpAddress
  pub src_port : ℕ
  pub dst_ip : IpAddress
  pub dst_port : ℕ
  pub status : ℕ
  pub created : ℕ
  pub modified : ℕ
  pub parallel : Option ℕ

abbrev pub row_of : PeerInfo → Row
row_of p = record {
  src_ip = p.src_ip;
  src_port = p.src_port;
  dst_ip = p.dst_ip;
  dst_port = p.dst_port;
  status = p.status;
  created = p.created;
  modified = p.modified;
  parallel = p.parallel;
}

-- The arguments of `list`; ipnone and 0 ask for nothing. `sort_by` is one of the constants SORT_BY_:
-- 1 source, 2 destination, 3 status, 4 modified, 5 creation.
pub record Request : Type 0 where
  pub src_filter : IpAddress
  pub dst_filter : IpAddress
  pub src_port : ℕ
  pub dst_port : ℕ
  pub status_filter : ℕ
  pub sort_by : ℕ
  pub ascending : Bool

unfoldable pub passes : IpAddress → Request → PeerInfo → Bool
passes ip_none r p =
    (same_ip r.src_filter ip_none || same_ip p.src_ip r.src_filter)
    && ((r.src_port == 0 || p.src_port == r.src_port)
        && ((same_ip r.dst_filter ip_none || same_ip p.dst_ip r.dst_filter)
            && ((r.dst_port == 0 || p.dst_port == r.dst_port)
                && (r.status_filter == 0 || has p.status r.status_filter))))

-- An address and a port against another, in both directions.
abbrev pub address_below : IpAddress → ℕ → IpAddress → ℕ → Bool
address_below ip port ip' port' = ip_less_than ip ip' || (same_ip ip ip' && ltb port port')

abbrev pub address_above : IpAddress → ℕ → IpAddress → ℕ → Bool
address_above ip port ip' port' =
    (not (ip_less_than ip ip') && not (same_ip ip ip')) || (same_ip ip ip' && leb port' port)

-- `inserthere`: whether the new row goes in front of the one that is there. The times that are shown
-- are durations, so that their order is the other way round.
unfoldable pub inserts_here : ℕ → Bool → Row → Row → Bool
inserts_here sort_by true p q =
    if sort_by == 1
    then address_below p.src_ip p.src_port q.src_ip q.src_port
    else if sort_by == 2
    then address_below p.dst_ip p.dst_port q.dst_ip q.dst_port
    else if sort_by == 3
    then ltb p.status q.status
    else if sort_by == 4
    then leb q.modified p.modified
    else sort_by == 5 && ltb p.created q.created
inserts_here sort_by false p q =
    if sort_by == 1
    then address_above p.src_ip p.src_port q.src_ip q.src_port
    else if sort_by == 2
    then address_above p.dst_ip p.dst_port q.dst_ip q.dst_port
    else if sort_by == 3
    then leb q.status p.status
    else if sort_by == 4
    then ltb p.modified q.modified
    else sort_by == 5 && leb q.created p.created

-- The inner loop and the insertion: in front of the first row where it is to be, or at the end.
unfoldable pub insert_row : (Row → Row → Bool) → Row → List Row → List Row
insert_row here p [] = p ∷ []
insert_row here p (q ∷ qs) =
    let more = insert_row here p qs in if here p q then p ∷ q ∷ qs else q ∷ more

unfoldable pub insert_all : IpAddress → Request → List PeerInfo → List Row → List Row
unfolding passes inserts_here insert_row
insert_all ip_none r [] rows = rows
insert_all ip_none r (p ∷ ps) rows = insert_all ip_none r ps (
    if passes ip_none r p
    then insert_row (inserts_here r.sort_by r.ascending) (row_of p) rows
    else rows)

-- A `sort_by` of 0 shows the list as it is, unfiltered.
abbrev pub rows_of : List PeerInfo → List Row
rows_of [] = []
rows_of (p ∷ ps) = row_of p ∷ rows_of ps

unfoldable pub listing : IpAddress → Request → List PeerInfo → List Row
unfolding insert_all
listing ip_none r peers = if r.sort_by == 0 then rows_of peers else insert_all ip_none r peers []
