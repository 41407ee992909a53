-- ===== src/Pathbuf/Tests.antt =====
-- Runs of src/pathbuf.c, and the instance of its theorem.
use qdl.Base.{◌≡◌, refl, Bytes, ◌∷◌, ◌++◌, codes, replicate, take}
use qdl.Pathbuf.{Pathbuf, qdl_pathbuf_push}
use qdl.Pathbuf.Text.{Holds, Pushes}
use qdl.Pathbuf.Join.{Joins, qdl_pathbuf_push-Joins}

-- a buffer with the text, and old bytes behind it
abbrev holding : Pathbuf
holding = record { buf = codes "dir" ++ 0 ∷ replicate 4092 b'/'; len = 3 }

abbrev fresh : Pathbuf
fresh = record { buf = replicate 4096 0; len = 0 }

text_of : Pathbuf → Bytes
text_of p = take p.len p.buf

joins : text_of (qdl_pathbuf_push holding (codes "./file")).1 ≡ codes "dir/file"
unfolding qdl_pathbuf_push text_of
joins = refl

replaces : text_of (qdl_pathbuf_push holding (codes "/file")).1 ≡ codes "/file"
unfolding qdl_pathbuf_push text_of
replaces = refl

-- A relative path becomes an absolute one.
becomes_absolute : text_of (qdl_pathbuf_push fresh (codes ".//file")).1 ≡ codes "/file"
unfolding qdl_pathbuf_push text_of
becomes_absolute = refl

holding-Holds : Holds holding (codes "dir")
holding-Holds = record {
  more = replicate 4092 b'/';
  buf_lem = refl;
  len_lem = refl;
  size_lem = refl;
}

qdl_pathbuf_push-Joins_example :
    (path : Bytes) × Joins (codes "dir") (codes "./file") path
    × Pushes holding path (qdl_pathbuf_push holding (codes "./file"))
qdl_pathbuf_push-Joins_example =
    qdl_pathbuf_push-Joins holding (codes "dir") (codes "./file") holding-Holds
