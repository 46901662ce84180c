-- ===== src/Tests/Platform.antt =====
-- platforms/platform_base.cpp, platforms/platforms.cpp and utils/ on concrete inputs.
use dmproxy.Base.{bytes_eq, codes, ◌≡◌, refl, some, ltb, arith, ◌==◌, if◌then◌else◌}
use dmproxy.Platforms.{platform_base, douyu, platform_get_instance, platform_creator_table}
use dmproxy.Utils.Gzip.{unzipped, ungzip}
use dmproxy.Utils.Gzip.Counted.{unpacked, aborted, outside, ungzip_counted, ungzip_counted_lem}
use dmproxy.Utils.Random.{Draws, IsBetween, IsNumber, random_number, random_number_lem}
use dmproxy.Utils.Gzip.Complete.{Inflates, ungzip_lem}
use dmproxy.Tests.Fixture.{messages, stored}

made :
    platform_get_instance (codes "douyu") (codes "7")
    ≡ some (platform_base douyu (codes "douyu") (codes "7"))
unfolding platform_get_instance platform_creator_table bytes_eq
made = refl

pub stored-Inflates : Inflates stored (λ s. s)
stored-Inflates = record { good = λ s n. tt; writes = λ s n. refl; leaves = λ s n. refl }

ungzip_example : ungzip stored (codes "danmu") ≡ unzipped (codes "danmu")
ungzip_example =
    ungzip_lem stored (λ s. s) stored-Inflates (codes "danmu") (codes "danmu") refl (omega arith)

-- A content of 3 bytes in a buffer of 16, then one that is too long for it.
counted_example :
    ungzip_counted stored (codes "abc")
    ≡ (if ltb 3 48 then unpacked (codes "abc") else (if 3 == 48 then aborted else outside))
counted_example =
    ungzip_counted_lem stored (λ s. s) stored-Inflates (codes "abc") (codes "abc") refl
      (omega arith) (omega arith)

-- Every draw is the lowest that is allowed.
abbrev lowest : Draws
lowest k lo hi = lo

lowest-IsBetween : IsBetween lowest
lowest-IsBetween k lo hi h = (omega arith, h)

draw_example : IsNumber 10 (random_number lowest 10)
draw_example = random_number_lem lowest lowest-IsBetween 10
