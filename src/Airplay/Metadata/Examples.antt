-- ===== src/Airplay/Metadata/Examples.antt =====
-- The listing of a small track, and the theorem about it applied.
use harmonia_server.Prelude.{
  ℕ, suc, ◌<◌, ◌≡◌, List, [], ◌∷◌, ◌++◌, some, length, true, pos, negsuc, arith,
}
use harmonia_server.Prelude.Runes.{runes}
use harmonia_server.Airplay.Dns.{put_16}
use harmonia_server.Airplay.Clock.{put_big}
use harmonia_server.Airplay.Metadata.{
  TrackMetadata, dmap_item, at_least_zero, text_items, number_items, id_items, duration_item,
  track_dmap,
}
use harmonia_server.Airplay.Metadata.Listing.{track_fields, read_listing, read_listing-track_dmap}

abbrev song : TrackMetadata
song = record {
  id = runes "t1";
  title = runes "Song";
  artist = runes "Band";
  album = [];
  album_artist = [];
  has_artwork = true;
  number = pos 70000;
  disc = negsuc 0;
  duration = pos 2500000000;
  position = pos 0;
}

abbrev first_bytes : List ℕ → List ℕ
first_bytes s = s ++ (0 ∷ 0 ∷ 0 ∷ 0 ∷ 0 ∷ 0 ∷ [])

song_short : length (track_dmap first_bytes song) < 4294967296
unfolding track_dmap dmap_item text_items number_items id_items duration_item at_least_zero put_big
    put_16
song_short = omega arith

read_listing-track_dmap_example :
    read_listing (suc (length (track_fields first_bytes song))) (track_dmap first_bytes song)
    ≡ some (track_fields first_bytes song)
read_listing-track_dmap_example = read_listing-track_dmap first_bytes song song_short
