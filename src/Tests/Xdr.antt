-- ===== src/Tests/Xdr.antt =====
-- XDR files (gpsee_xdrfile.c).
use gpsee.Base.{
  ℕ, ◌+◌, ◌<◌, ◌≡◌, ◌⊎◌, inl, refl, true, false, List, [], ◌∷◌, Option, none, some, arith, length,
  replicate, length-replicate,
}
use gpsee.Xdr.{decode, File, XdrFile, getbytes, word}
use gpsee.Xdr.Chunk.{IsGranted}
use gpsee.Xdr.Stream.{ended}
use gpsee.Xdr.Reading.{IsMapped, IsStream}
use gpsee.Xdr.Session.{
  Item, number, bytes, chunk, payload, payloads, number_fits, bytes_fit, chunk_fits, AllItems, nil,
  cons,
}
use gpsee.Xdr.RoundTrip.{write_file, read_file, rewound, IsPlace, read_file-write_file}
use gpsee.Xdr.Bounds.{getbytes_alike}

abbrev allocated : ℕ → Option (List ℕ)
allocated n = some (replicate n 7)

allocated-IsGranted : IsGranted allocated
allocated-IsGranted n = (replicate n 7, refl, length-replicate n 7)

abbrev mmap : File → ℕ
mmap f = 4096

mmap-IsPlace : IsPlace mmap
mmap-IsPlace f some_text short = (omega arith, omega (arith, short))

abbrev items : List Item
items = number 70000 ∷ bytes (1 ∷ 2 ∷ []) ∷ chunk (3 ∷ []) ∷ []

items-AllItems : AllItems items
items-AllItems = cons (number 70000) _ (number_fits 70000 (omega arith)) (
    cons (bytes (1 ∷ 2 ∷ [])) _ (bytes_fit (1 ∷ 2 ∷ []) (omega arith))
      (cons (chunk (3 ∷ [])) _ (chunk_fits (3 ∷ []) (omega arith) (omega arith)) nil))

payloads-items : payloads items ≡ 112 ∷ 17 ∷ 1 ∷ 0 ∷ 1 ∷ 2 ∷ 3 ∷ []
unfolding payloads payload word
payloads-items = refl

length-payloads : length (payloads items) ≡ 7
unfolding payloads payload word
length-payloads = refl

read_file-write_file_example :
    (f : File) × (write_file true (λ f. true) mmap allocated items (ended [] 9)
      ≡ some (true, some f))
    × (f.content ≡ payloads items)
    × (x : XdrFile) × (read_file true (λ f. true) mmap allocated items (rewound f)
        ≡ some (items, x))
read_file-write_file_example =
    read_file-write_file true (λ f. true) mmap allocated allocated-IsGranted items 9 mmap-IsPlace
      items-AllItems (omega (arith, length-payloads)) (omega (arith, length-payloads))
      (omega (arith, length-payloads))

abbrev in_map : XdrFile
in_map = record {
  mode = decode;
  f = some (record { content = 5 ∷ 6 ∷ 7 ∷ []; at = 0; room = 3 });
  own_file = true;
  region = 5 ∷ 6 ∷ 7 ∷ [];
  map = 4096;
  mapend = 4099;
  maplen = 3;
  mappos = 4097;
  raw = none;
  rawlen = 0;
  rawsize = 0;
  rawlive = false;
}

in_map-IsMapped : IsMapped in_map (5 ∷ 6 ∷ 7 ∷ []) 1
in_map-IsMapped = record {
  region = refl;
  nonzero = omega arith;
  bounded = omega arith;
  end_of_map = refl;
  here = refl;
}

abbrev in_stream : XdrFile
in_stream = record in_map {
  f = some (record { content = 5 ∷ 6 ∷ 7 ∷ []; at = 1; room = 3 });
  region = [];
  map = 0;
  mapend = 0;
  maplen = 0;
  mappos = 0;
}

in_stream-IsStream : IsStream in_stream (5 ∷ 6 ∷ 7 ∷ []) 1
in_stream-IsStream = record {
  decodes = refl;
  unmapped = refl;
  room = 3;
  stream = refl;
  sized = inl (refl, refl);
}

getbytes_alike_example :
    ((x' : XdrFile) × (y' : XdrFile) × (getbytes 2 in_map ≡ some (true, 6 ∷ 7 ∷ [], x'))
      × (getbytes 2 in_stream ≡ some (true, 6 ∷ 7 ∷ [], y'))
      × IsMapped x' (5 ∷ 6 ∷ 7 ∷ []) (1 + 2)
      × IsStream y' (5 ∷ 6 ∷ 7 ∷ []) (1 + 2))
    ⊎ ((3 < 1 + 2)
        × (y' : XdrFile) × (getbytes 2 in_map ≡ some (false, [], in_map))
        × (getbytes 2 in_stream ≡ some (false, 6 ∷ 7 ∷ [], y'))
        × IsStream y' (5 ∷ 6 ∷ 7 ∷ []) 3)
getbytes_alike_example =
    getbytes_alike in_map in_stream (5 ∷ 6 ∷ 7 ∷ []) 1 2 in_map-IsMapped in_stream-IsStream
      (omega arith) (omega arith)
