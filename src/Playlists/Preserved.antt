-- ===== src/Playlists/Preserved.antt =====
-- Each operation of src/services/music-playlist-service.js on tables whose playlists are in order.
use labaiacinghiala.Common.{
  ℕ, suc, Bool, true, false, not, Option, none, some, List, [], ◌∷◌, ◌≡◌, refl, inl, inr, arith,
  Text, text_eq, length, any, all, find, count_rows, ◌==◌, Bool-cases, ok, ap, sym, ◌∙◌, subst,
  Returns, Returns-weaken, Returns->>=, Returns-ok, keep, ==_iff, require,
}
use labaiacinghiala.Playlists.{
  Link, Track, Music, Playlist, Payload, order_mismatch, name_conflict, database_error, name_taken,
  create_music_playlist, update_found, delete_found, normalize_playlist_input, normalize_track_ids,
}
use labaiacinghiala.Playlists.Edits.{
  current_row, compact_playlist_positions, Row, is_link, list_rows, without_link,
  resolve_available_tracks, available_or_error, is_available, add_found, remove_found,
  reorder_found, committed, is_reordering, internal_ids, put_id, has_uuid, has_track_id, row_tracks,
}
use labaiacinghiala.Playlists.Rows.{Keyed, list_rows-le, list_rows-Linked, length-row_tracks}
use labaiacinghiala.Playlists.Dense.{is_of, Dense}
use labaiacinghiala.Playlists.Compaction.{Compact, compact_playlist_positions-Compact}
use labaiacinghiala.Playlists.Positions.{Distinct, Linked}
use labaiacinghiala.Playlists.Ids.{Fresh, normalize_track_ids-Fresh}
use labaiacinghiala.Playlists.Lookups.{
  known-list_rows, internal-le, internal_member, named_once, find_total,
}
use labaiacinghiala.Playlists.Ordered.{is_track_of, Ordered, Known, compact-Ordered}
use labaiacinghiala.Playlists.Insertion.{
  length-list_rows-Known, next_position-Ordered, insert_tracks-Ordered,
}
use labaiacinghiala.Playlists.Deletions.{left-Keyed, left-Known, left-Dense, none_left-Dense}

find-any :
    (p q : Track → Bool) (tracks : List Track) {t : Track}
    → find p tracks ≡ some t
    → q t ≡ true
    → any q tracks ≡ true
find-any p q [] h is = cc
find-any p q (a ∷ tracks) {t} h is = elim (Bool-cases (p a)) [
  | inl found ↦ ground (arith, found, h, is)
  | inr other ↦ ground (arith, find-any p q tracks {t = t} (rw other at h) is)
]

available-some : (o : Option Track) {t : Track} → available_or_error o ≡ ok t → o ≡ some t
unfolding available_or_error
available-some none h = cc
available-some (some a) h = cc

resolve_available_tracks-known :
    (tracks : List Track) (ids : List Text)
    → Returns (λ found. all (is_track_of tracks) found ≡ true) (resolve_available_tracks tracks ids)
unfolding resolve_available_tracks available_or_error has_track_id
resolve_available_tracks-known tracks [] = refl
resolve_available_tracks-known tracks (u ∷ rest) =
    Returns->>= _ (available_or_error (find (is_available u) tracks)) _ λ t found.
      Returns->>= _ (resolve_available_tracks tracks rest) _ λ others e.
        let here : is_track_of tracks t.id ≡ true =
          find-any (is_available u) (has_track_id t.id) tracks {t = t} (available-some _ found)
            ((==_iff t.id t.id).1 refl) in
        let there =
          Returns-ok (λ found. all (is_track_of tracks) found ≡ true)
            (resolve_available_tracks tracks rest) (resolve_available_tracks-known tracks rest) e in
        ground (arith, here, there)

length-internal_ids :
    (rows : List Row) (ids : List Text)
    → all (λ id. any (has_uuid id) rows) ids ≡ true
    → length (internal_ids rows ids) ≡ length ids
unfolding internal_ids put_id
length-internal_ids rows [] h = refl
length-internal_ids rows (u ∷ rest) h =
    let (r, found) = find_total u rows (ground (arith, h)) in
    rw found (ap suc (length-internal_ids rows rest (ground (arith, h))))

-- What the operations return, where there was such a playlist.
abbrev pub OrderedIn : Option Music → Type 0
OrderedIn none = Unit
OrderedIn (some after) = Ordered after.tracks after.links

pub add_found-Ordered :
    (ids : Option (List Text)) (now : ℕ) (music : Music) (found : Option Playlist)
    → Ordered music.tracks music.links
    → Returns OrderedIn (add_found ids now music found)
unfolding add_found committed
add_found-Ordered ids now music none o = tt
add_found-Ordered ids now music (some p) o =
    Returns->>= OrderedIn (normalize_track_ids false ids) _ λ uuids _.
      Returns->>= OrderedIn (resolve_available_tracks music.tracks uuids) _ λ tracks e.
        insert_tracks-Ordered p.id _ tracks music.tracks music.links
          (Returns-ok (λ found. all (is_track_of music.tracks) found ≡ true)
            (resolve_available_tracks music.tracks uuids)
            (resolve_available_tracks-known music.tracks uuids) e)
          (next_position-Ordered p.id music.tracks music.links o) o

link_of : (p t : ℕ) (l : Link) → is_link p t l ≡ true → (l.playlist == p) ≡ true
unfolding is_link
link_of p t l h = ground (arith, h)

compacted :
    (playlist : ℕ) (ids : List ℕ) (tracks : List Track) (links : List Link)
    → ((p : ℕ) → Keyed p links)
    → Known tracks links
    → ((p : ℕ) → (p == playlist) ≡ false → Dense p links)
    → length ids ≡ count_rows (is_of playlist) links
    → Distinct ids
    → Linked playlist ids links
    → Returns (Ordered tracks) (compact_playlist_positions playlist ids links)
compacted playlist ids tracks links keyed known dense whole distinct linked =
    Returns-weaken (Compact playlist links) (Ordered tracks)
      (compact_playlist_positions playlist ids links)
      (λ result. compact-Ordered playlist tracks links result keyed known dense)
      (compact_playlist_positions-Compact playlist ids links whole distinct linked)

without_link-compacted :
    (p t : ℕ) (tracks : List Track) (links : List Link)
    → Ordered tracks links
    → Returns (Ordered tracks) (
        compact_playlist_positions p
          (row_tracks (list_rows p tracks (without_link p t links)))
          (without_link p t links))
unfolding without_link
without_link-compacted p t tracks links o =
    let remaining = without_link p t links in
    let rows = list_rows p tracks remaining in
    let keyed : (q : ℕ) → Keyed q remaining =
      λ q. left-Keyed p (is_link p t) (link_of p t) q links (o.keyed q) in
    let known = left-Known p (is_link p t) (link_of p t) tracks links o.known in
    compacted p (row_tracks rows) tracks remaining keyed known
      (λ q apart. left-Dense p (is_link p t) (link_of p t) q links apart (o.dense q))
      (length-row_tracks rows ∙ length-list_rows-Known p tracks remaining known)
      (λ u. omega (arith, keyed p u, list_rows-le p u tracks remaining))
      (list_rows-Linked p tracks remaining)

pub remove_found-Ordered :
    (id : Text) (now : ℕ) (music : Music) (found : Option Playlist)
    → Ordered music.tracks music.links
    → Returns OrderedIn (remove_found id now music found)
unfolding remove_found committed
remove_found-Ordered id now music none o = tt
remove_found-Ordered id now music (some p) o =
    Returns->>= OrderedIn (current_row id (list_rows p.id music.tracks music.links)) _ λ current _.
      Returns->>= OrderedIn (compact_playlist_positions p.id _ _) _ λ links e.
        Returns-ok (Ordered music.tracks) _
          (without_link-compacted p.id current.track music.tracks music.links o) e

whole :
    (rows : List Row) (uuids : List Text) {u : Unit {0}}
    → require (is_reordering uuids rows) order_mismatch ≡ ok u
    → length (internal_ids rows uuids) ≡ length rows
unfolding is_reordering
whole rows uuids h =
    length-internal_ids rows uuids (ground (arith, h))
    ∙ (==_iff (length uuids) (length rows)).0 (ground (arith, h))

pub reorder_found-Ordered :
    (ids : Option (List Text)) (now : ℕ) (music : Music) (found : Option Playlist)
    → Ordered music.tracks music.links
    → Returns OrderedIn (reorder_found ids now music found)
unfolding reorder_found committed
reorder_found-Ordered ids now music none o = tt
reorder_found-Ordered ids now music (some p) o =
    let rows = list_rows p.id music.tracks music.links in
    let known_rows = known-list_rows p.id music.tracks music.links in
    Returns->>= OrderedIn (normalize_track_ids true ids) _ λ uuids normal.
      Returns->>= OrderedIn (require (is_reordering uuids rows) order_mismatch) _ λ _ guard.
        Returns->>= OrderedIn
          (compact_playlist_positions p.id (internal_ids rows uuids) music.links) _
          λ links e.
            Returns-ok (Ordered music.tracks)
              (compact_playlist_positions p.id (internal_ids rows uuids) music.links)
              (compacted p.id (internal_ids rows uuids) music.tracks music.links o.keyed o.known
                (λ q apart. o.dense q)
                (whole rows uuids guard
                  ∙ length-list_rows-Known p.id music.tracks music.links o.known)
                (λ t. omega (
                  arith,
                  internal-le music.tracks rows t uuids known_rows,
                  named_once (find (has_track_id t) music.tracks) uuids
                      (Returns-ok (Fresh []) _ (normalize_track_ids-Fresh true ids) normal),
                ))
                (λ t h.
                  list_rows-Linked p.id music.tracks music.links t
                    (internal_member music.tracks rows t uuids known_rows h)))
              e

pub delete_found-Ordered :
    (music : Music) (found : Option Playlist)
    → Ordered music.tracks music.links
    → OrderedIn (delete_found music found)
unfolding delete_found
delete_found-Ordered music none o = tt
delete_found-Ordered music (some p) o =
    let remaining = keep (λ (l : Link). not (l.playlist == p.id)) music.links in
    record {
      keyed = λ q. left-Keyed p.id (is_of p.id) (λ l h. h) q music.links (o.keyed q);
      known = left-Known p.id (is_of p.id) (λ l h. h) music.tracks music.links o.known;
      dense = λ q. elim (Bool-cases (q == p.id)) [
        | inl same ↦
            subst (λ r. Dense r remaining) (sym ((==_iff q p.id).0 same))
              (none_left-Dense p.id music.links)
        | inr apart ↦ left-Dense p.id (is_of p.id) (λ l h. h) q music.links apart (o.dense q)
      ];
    }

pub update_found-Ordered :
    (profile : Text) (payload : Payload) (now : ℕ) (music : Music) (found : Option Playlist)
    → Ordered music.tracks music.links
    → Returns OrderedIn (update_found profile payload now music found)
unfolding update_found
update_found-Ordered profile payload now music none o = tt
update_found-Ordered profile payload now music (some p) o =
    Returns->>= OrderedIn (normalize_playlist_input payload (some p)) _ λ input _.
      Returns->>= OrderedIn
        (require
          (not (
            name_taken profile input.name
              (keep (λ (q : Playlist). not (q.id == p.id)) music.playlists)))
          name_conflict)
        _ λ _ _. o

pub create_music_playlist-Ordered :
    (profile : Text) (payload : Payload) (uuid : Text) (now : ℕ) (music : Music)
    → Ordered music.tracks music.links
    → Returns
        (λ after. Ordered after.tracks after.links)
        (create_music_playlist profile payload uuid now music)
unfolding create_music_playlist
create_music_playlist-Ordered profile payload uuid now music o =
    Returns->>= _ (normalize_playlist_input payload none) _ λ input _.
      Returns->>= _
        (require (not (any (λ (p : Playlist). text_eq p.uuid uuid) music.playlists)) database_error)
        _
        λ _ _.
          Returns->>= (λ after. Ordered after.tracks after.links)
            (require (not (name_taken profile input.name music.playlists)) name_conflict) _ λ _ _. o
