-- ===== src/Strings/Cases.antt =====
-- Package unicode: the letters beyond ASCII that have another as their lower case, in the tables of
-- Unicode 15, which Go 1.24 has.
use phenk.Prelude.{ℕ, ◌+◌, ◌-◌, ◌%◌, List, [], ◌∷◌, leb, ◌==◌, ◌&&◌, if◌then◌else◌}

-- From the first letter to the last, at a distance of 1 or 2, with what is added or taken away.
pub data Cased : Type 0 where
  cased : ℕ → ℕ → ℕ → ℕ → ℕ → Cased

abbrev pub cases : List Cased
cases =
    cased 192 214 1 32 0
    ∷ cased 216 222 1 32 0
    ∷ cased 256 302 2 1 0
    ∷ cased 304 304 1 0 199
    ∷ cased 306 310 2 1 0
    ∷ cased 313 327 2 1 0
    ∷ cased 330 374 2 1 0
    ∷ cased 376 376 1 0 121
    ∷ cased 377 381 2 1 0
    ∷ cased 385 385 1 210 0
    ∷ cased 386 388 2 1 0
    ∷ cased 390 390 1 206 0
    ∷ cased 391 391 1 1 0
    ∷ cased 393 394 1 205 0
    ∷ cased 395 395 1 1 0
    ∷ cased 398 398 1 79 0
    ∷ cased 399 399 1 202 0
    ∷ cased 400 400 1 203 0
    ∷ cased 401 401 1 1 0
    ∷ cased 403 403 1 205 0
    ∷ cased 404 404 1 207 0
    ∷ cased 406 406 1 211 0
    ∷ cased 407 407 1 209 0
    ∷ cased 408 408 1 1 0
    ∷ cased 412 412 1 211 0
    ∷ cased 413 413 1 213 0
    ∷ cased 415 415 1 214 0
    ∷ cased 416 420 2 1 0
    ∷ cased 422 422 1 218 0
    ∷ cased 423 423 1 1 0
    ∷ cased 425 425 1 218 0
    ∷ cased 428 428 1 1 0
    ∷ cased 430 430 1 218 0
    ∷ cased 431 431 1 1 0
    ∷ cased 433 434 1 217 0
    ∷ cased 435 437 2 1 0
    ∷ cased 439 439 1 219 0
    ∷ cased 440 440 1 1 0
    ∷ cased 444 444 1 1 0
    ∷ cased 452 452 1 2 0
    ∷ cased 453 453 1 1 0
    ∷ cased 455 455 1 2 0
    ∷ cased 456 456 1 1 0
    ∷ cased 458 458 1 2 0
    ∷ cased 459 475 2 1 0
    ∷ cased 478 494 2 1 0
    ∷ cased 497 497 1 2 0
    ∷ cased 498 500 2 1 0
    ∷ cased 502 502 1 0 97
    ∷ cased 503 503 1 0 56
    ∷ cased 504 542 2 1 0
    ∷ cased 544 544 1 0 130
    ∷ cased 546 562 2 1 0
    ∷ cased 570 570 1 10795 0
    ∷ cased 571 571 1 1 0
    ∷ cased 573 573 1 0 163
    ∷ cased 574 574 1 10792 0
    ∷ cased 577 577 1 1 0
    ∷ cased 579 579 1 0 195
    ∷ cased 580 580 1 69 0
    ∷ cased 581 581 1 71 0
    ∷ cased 582 590 2 1 0
    ∷ cased 880 882 2 1 0
    ∷ cased 886 886 1 1 0
    ∷ cased 895 895 1 116 0
    ∷ cased 902 902 1 38 0
    ∷ cased 904 906 1 37 0
    ∷ cased 908 908 1 64 0
    ∷ cased 910 911 1 63 0
    ∷ cased 913 929 1 32 0
    ∷ cased 931 939 1 32 0
    ∷ cased 975 975 1 8 0
    ∷ cased 984 1006 2 1 0
    ∷ cased 1012 1012 1 0 60
    ∷ cased 1015 1015 1 1 0
    ∷ cased 1017 1017 1 0 7
    ∷ cased 1018 1018 1 1 0
    ∷ cased 1021 1023 1 0 130
    ∷ cased 1024 1039 1 80 0
    ∷ cased 1040 1071 1 32 0
    ∷ cased 1120 1152 2 1 0
    ∷ cased 1162 1214 2 1 0
    ∷ cased 1216 1216 1 15 0
    ∷ cased 1217 1229 2 1 0
    ∷ cased 1232 1326 2 1 0
    ∷ cased 1329 1366 1 48 0
    ∷ cased 4256 4293 1 7264 0
    ∷ cased 4295 4295 1 7264 0
    ∷ cased 4301 4301 1 7264 0
    ∷ cased 5024 5103 1 38864 0
    ∷ cased 5104 5109 1 8 0
    ∷ cased 7312 7354 1 0 3008
    ∷ cased 7357 7359 1 0 3008
    ∷ cased 7680 7828 2 1 0
    ∷ cased 7838 7838 1 0 7615
    ∷ cased 7840 7934 2 1 0
    ∷ cased 7944 7951 1 0 8
    ∷ cased 7960 7965 1 0 8
    ∷ cased 7976 7983 1 0 8
    ∷ cased 7992 7999 1 0 8
    ∷ cased 8008 8013 1 0 8
    ∷ cased 8025 8031 2 0 8
    ∷ cased 8040 8047 1 0 8
    ∷ cased 8072 8079 1 0 8
    ∷ cased 8088 8095 1 0 8
    ∷ cased 8104 8111 1 0 8
    ∷ cased 8120 8121 1 0 8
    ∷ cased 8122 8123 1 0 74
    ∷ cased 8124 8124 1 0 9
    ∷ cased 8136 8139 1 0 86
    ∷ cased 8140 8140 1 0 9
    ∷ cased 8152 8153 1 0 8
    ∷ cased 8154 8155 1 0 100
    ∷ cased 8168 8169 1 0 8
    ∷ cased 8170 8171 1 0 112
    ∷ cased 8172 8172 1 0 7
    ∷ cased 8184 8185 1 0 128
    ∷ cased 8186 8187 1 0 126
    ∷ cased 8188 8188 1 0 9
    ∷ cased 8486 8486 1 0 7517
    ∷ cased 8490 8490 1 0 8383
    ∷ cased 8491 8491 1 0 8262
    ∷ cased 8498 8498 1 28 0
    ∷ cased 8544 8559 1 16 0
    ∷ cased 8579 8579 1 1 0
    ∷ cased 9398 9423 1 26 0
    ∷ cased 11264 11311 1 48 0
    ∷ cased 11360 11360 1 1 0
    ∷ cased 11362 11362 1 0 10743
    ∷ cased 11363 11363 1 0 3814
    ∷ cased 11364 11364 1 0 10727
    ∷ cased 11367 11371 2 1 0
    ∷ cased 11373 11373 1 0 10780
    ∷ cased 11374 11374 1 0 10749
    ∷ cased 11375 11375 1 0 10783
    ∷ cased 11376 11376 1 0 10782
    ∷ cased 11378 11378 1 1 0
    ∷ cased 11381 11381 1 1 0
    ∷ cased 11390 11391 1 0 10815
    ∷ cased 11392 11490 2 1 0
    ∷ cased 11499 11501 2 1 0
    ∷ cased 11506 11506 1 1 0
    ∷ cased 42560 42604 2 1 0
    ∷ cased 42624 42650 2 1 0
    ∷ cased 42786 42798 2 1 0
    ∷ cased 42802 42862 2 1 0
    ∷ cased 42873 42875 2 1 0
    ∷ cased 42877 42877 1 0 35332
    ∷ cased 42878 42886 2 1 0
    ∷ cased 42891 42891 1 1 0
    ∷ cased 42893 42893 1 0 42280
    ∷ cased 42896 42898 2 1 0
    ∷ cased 42902 42920 2 1 0
    ∷ cased 42922 42922 1 0 42308
    ∷ cased 42923 42923 1 0 42319
    ∷ cased 42924 42924 1 0 42315
    ∷ cased 42925 42925 1 0 42305
    ∷ cased 42926 42926 1 0 42308
    ∷ cased 42928 42928 1 0 42258
    ∷ cased 42929 42929 1 0 42282
    ∷ cased 42930 42930 1 0 42261
    ∷ cased 42931 42931 1 928 0
    ∷ cased 42932 42946 2 1 0
    ∷ cased 42948 42948 1 0 48
    ∷ cased 42949 42949 1 0 42307
    ∷ cased 42950 42950 1 0 35384
    ∷ cased 42951 42953 2 1 0
    ∷ cased 42960 42960 1 1 0
    ∷ cased 42966 42968 2 1 0
    ∷ cased 42997 42997 1 1 0
    ∷ cased 65313 65338 1 32 0
    ∷ cased 66560 66599 1 40 0
    ∷ cased 66736 66771 1 40 0
    ∷ cased 66928 66938 1 39 0
    ∷ cased 66940 66954 1 39 0
    ∷ cased 66956 66962 1 39 0
    ∷ cased 66964 66965 1 39 0
    ∷ cased 68736 68786 1 64 0
    ∷ cased 71840 71871 1 32 0
    ∷ cased 93760 93791 1 32 0
    ∷ cased 125184 125217 1 34 0
    ∷ []

-- unicode.ToLower, beyond ASCII
unfoldable pub lower_letter : List Cased → ℕ → ℕ
lower_letter [] c = c
lower_letter (cased first last step up down ∷ rows) c =
    let rest = lower_letter rows c in
    if leb first c && (leb c last && (c - first) % step == 0) then c + up - down else rest
