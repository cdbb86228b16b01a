-- ===== src/Tests/Links.antt =====
-- The theorems on links.
use cogmemory.Base.{codes}
use cogmemory.Link.Words.{whole_word_index}
use cogmemory.Link.Words.Whole.{FirstWhole, whole_word_index-FirstWhole}

whole_word_index-FirstWhole_example :
    FirstWhole
      (codes "annex ann")
      b'a'
      (codes "nn")
      0
      (whole_word_index (codes "annex ann") (codes "ann"))
whole_word_index-FirstWhole_example =
    whole_word_index-FirstWhole (codes "annex ann") b'a' (codes "nn")
