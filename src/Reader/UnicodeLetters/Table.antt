-- ===== src/Reader/UnicodeLetters/Table.antt =====
-- src/reader/UnicodeLetters.h: the table `kSymbolLetterRanges`, 781 ranges of code points, in the
-- source's order. It is written in pieces, so that each is a short term.
use proto_clojure.Base.{ℕ, List, [], ◌∷◌, ◌++◌}

-- `CodePointRange`: the code points from `first` to `last`.
pub record CodePointRange : Type 0 where
  pub first : ℕ
  pub last : ℕ

abbrev range : ℕ → ℕ → CodePointRange
range a b = record { first = a; last = b }

ranges_0 : List CodePointRange
ranges_0 =
    range 0x00AA 0x00AA
    ∷ range 0x00B5 0x00B5
    ∷ range 0x00BA 0x00BA
    ∷ range 0x00C0 0x00D6
    ∷ range 0x00D8 0x00F6
    ∷ range 0x00F8 0x02C1
    ∷ range 0x02C6 0x02D1
    ∷ range 0x02E0 0x02E4
    ∷ range 0x02EC 0x02EC
    ∷ range 0x02EE 0x02EE
    ∷ range 0x0300 0x0374
    ∷ range 0x0376 0x0377
    ∷ range 0x037A 0x037D
    ∷ range 0x037F 0x037F
    ∷ range 0x0386 0x0386
    ∷ range 0x0388 0x038A
    ∷ range 0x038C 0x038C
    ∷ range 0x038E 0x03A1
    ∷ range 0x03A3 0x03F5
    ∷ range 0x03F7 0x0481
    ∷ range 0x0483 0x052F
    ∷ range 0x0531 0x0556
    ∷ range 0x0559 0x0559
    ∷ range 0x0560 0x0588
    ∷ range 0x0591 0x05BD
    ∷ range 0x05BF 0x05BF
    ∷ range 0x05C1 0x05C2
    ∷ range 0x05C4 0x05C5
    ∷ range 0x05C7 0x05C7
    ∷ range 0x05D0 0x05EA
    ∷ range 0x05EF 0x05F2
    ∷ range 0x0610 0x061A
    ∷ range 0x0620 0x0669
    ∷ range 0x066E 0x06D3
    ∷ range 0x06D5 0x06DC
    ∷ range 0x06DF 0x06E8
    ∷ range 0x06EA 0x06FC
    ∷ range 0x06FF 0x06FF
    ∷ range 0x0710 0x074A
    ∷ range 0x074D 0x07B1
    ∷ range 0x07C0 0x07F5
    ∷ range 0x07FA 0x07FA
    ∷ range 0x07FD 0x07FD
    ∷ range 0x0800 0x082D
    ∷ range 0x0840 0x085B
    ∷ range 0x0860 0x086A
    ∷ range 0x0870 0x0887
    ∷ range 0x0889 0x088E
    ∷ range 0x0897 0x08E1
    ∷ range 0x08E3 0x0963
    ∷ range 0x0966 0x096F
    ∷ range 0x0971 0x0983
    ∷ range 0x0985 0x098C
    ∷ range 0x098F 0x0990
    ∷ range 0x0993 0x09A8
    ∷ range 0x09AA 0x09B0
    ∷ range 0x09B2 0x09B2
    ∷ range 0x09B6 0x09B9
    ∷ range 0x09BC 0x09C4
    ∷ range 0x09C7 0x09C8
    ∷ range 0x09CB 0x09CE
    ∷ range 0x09D7 0x09D7
    ∷ range 0x09DC 0x09DD
    ∷ range 0x09DF 0x09E3
    ∷ range 0x09E6 0x09F1
    ∷ range 0x09FC 0x09FC
    ∷ range 0x09FE 0x09FE
    ∷ range 0x0A01 0x0A03
    ∷ range 0x0A05 0x0A0A
    ∷ range 0x0A0F 0x0A10
    ∷ range 0x0A13 0x0A28
    ∷ range 0x0A2A 0x0A30
    ∷ range 0x0A32 0x0A33
    ∷ range 0x0A35 0x0A36
    ∷ range 0x0A38 0x0A39
    ∷ range 0x0A3C 0x0A3C
    ∷ range 0x0A3E 0x0A42
    ∷ range 0x0A47 0x0A48
    ∷ range 0x0A4B 0x0A4D
    ∷ range 0x0A51 0x0A51
    ∷ range 0x0A59 0x0A5C
    ∷ range 0x0A5E 0x0A5E
    ∷ range 0x0A66 0x0A75
    ∷ range 0x0A81 0x0A83
    ∷ range 0x0A85 0x0A8D
    ∷ range 0x0A8F 0x0A91
    ∷ range 0x0A93 0x0AA8
    ∷ range 0x0AAA 0x0AB0
    ∷ range 0x0AB2 0x0AB3
    ∷ range 0x0AB5 0x0AB9
    ∷ range 0x0ABC 0x0AC5
    ∷ range 0x0AC7 0x0AC9
    ∷ range 0x0ACB 0x0ACD
    ∷ range 0x0AD0 0x0AD0
    ∷ range 0x0AE0 0x0AE3
    ∷ range 0x0AE6 0x0AEF
    ∷ range 0x0AF9 0x0AFF
    ∷ range 0x0B01 0x0B03
    ∷ range 0x0B05 0x0B0C
    ∷ range 0x0B0F 0x0B10
    ∷ []

ranges_1 : List CodePointRange
ranges_1 =
    range 0x0B13 0x0B28
    ∷ range 0x0B2A 0x0B30
    ∷ range 0x0B32 0x0B33
    ∷ range 0x0B35 0x0B39
    ∷ range 0x0B3C 0x0B44
    ∷ range 0x0B47 0x0B48
    ∷ range 0x0B4B 0x0B4D
    ∷ range 0x0B55 0x0B57
    ∷ range 0x0B5C 0x0B5D
    ∷ range 0x0B5F 0x0B63
    ∷ range 0x0B66 0x0B6F
    ∷ range 0x0B71 0x0B71
    ∷ range 0x0B82 0x0B83
    ∷ range 0x0B85 0x0B8A
    ∷ range 0x0B8E 0x0B90
    ∷ range 0x0B92 0x0B95
    ∷ range 0x0B99 0x0B9A
    ∷ range 0x0B9C 0x0B9C
    ∷ range 0x0B9E 0x0B9F
    ∷ range 0x0BA3 0x0BA4
    ∷ range 0x0BA8 0x0BAA
    ∷ range 0x0BAE 0x0BB9
    ∷ range 0x0BBE 0x0BC2
    ∷ range 0x0BC6 0x0BC8
    ∷ range 0x0BCA 0x0BCD
    ∷ range 0x0BD0 0x0BD0
    ∷ range 0x0BD7 0x0BD7
    ∷ range 0x0BE6 0x0BEF
    ∷ range 0x0C00 0x0C0C
    ∷ range 0x0C0E 0x0C10
    ∷ range 0x0C12 0x0C28
    ∷ range 0x0C2A 0x0C39
    ∷ range 0x0C3C 0x0C44
    ∷ range 0x0C46 0x0C48
    ∷ range 0x0C4A 0x0C4D
    ∷ range 0x0C55 0x0C56
    ∷ range 0x0C58 0x0C5A
    ∷ range 0x0C5D 0x0C5D
    ∷ range 0x0C60 0x0C63
    ∷ range 0x0C66 0x0C6F
    ∷ range 0x0C80 0x0C83
    ∷ range 0x0C85 0x0C8C
    ∷ range 0x0C8E 0x0C90
    ∷ range 0x0C92 0x0CA8
    ∷ range 0x0CAA 0x0CB3
    ∷ range 0x0CB5 0x0CB9
    ∷ range 0x0CBC 0x0CC4
    ∷ range 0x0CC6 0x0CC8
    ∷ range 0x0CCA 0x0CCD
    ∷ range 0x0CD5 0x0CD6
    ∷ range 0x0CDD 0x0CDE
    ∷ range 0x0CE0 0x0CE3
    ∷ range 0x0CE6 0x0CEF
    ∷ range 0x0CF1 0x0CF3
    ∷ range 0x0D00 0x0D0C
    ∷ range 0x0D0E 0x0D10
    ∷ range 0x0D12 0x0D44
    ∷ range 0x0D46 0x0D48
    ∷ range 0x0D4A 0x0D4E
    ∷ range 0x0D54 0x0D57
    ∷ range 0x0D5F 0x0D63
    ∷ range 0x0D66 0x0D6F
    ∷ range 0x0D7A 0x0D7F
    ∷ range 0x0D81 0x0D83
    ∷ range 0x0D85 0x0D96
    ∷ range 0x0D9A 0x0DB1
    ∷ range 0x0DB3 0x0DBB
    ∷ range 0x0DBD 0x0DBD
    ∷ range 0x0DC0 0x0DC6
    ∷ range 0x0DCA 0x0DCA
    ∷ range 0x0DCF 0x0DD4
    ∷ range 0x0DD6 0x0DD6
    ∷ range 0x0DD8 0x0DDF
    ∷ range 0x0DE6 0x0DEF
    ∷ range 0x0DF2 0x0DF3
    ∷ range 0x0E01 0x0E3A
    ∷ range 0x0E40 0x0E4E
    ∷ range 0x0E50 0x0E59
    ∷ range 0x0E81 0x0E82
    ∷ range 0x0E84 0x0E84
    ∷ range 0x0E86 0x0E8A
    ∷ range 0x0E8C 0x0EA3
    ∷ range 0x0EA5 0x0EA5
    ∷ range 0x0EA7 0x0EBD
    ∷ range 0x0EC0 0x0EC4
    ∷ range 0x0EC6 0x0EC6
    ∷ range 0x0EC8 0x0ECE
    ∷ range 0x0ED0 0x0ED9
    ∷ range 0x0EDC 0x0EDF
    ∷ range 0x0F00 0x0F00
    ∷ range 0x0F18 0x0F19
    ∷ range 0x0F20 0x0F29
    ∷ range 0x0F35 0x0F35
    ∷ range 0x0F37 0x0F37
    ∷ range 0x0F39 0x0F39
    ∷ range 0x0F3E 0x0F47
    ∷ range 0x0F49 0x0F6C
    ∷ range 0x0F71 0x0F84
    ∷ range 0x0F86 0x0F97
    ∷ range 0x0F99 0x0FBC
    ∷ []

ranges_2 : List CodePointRange
ranges_2 =
    range 0x0FC6 0x0FC6
    ∷ range 0x1000 0x1049
    ∷ range 0x1050 0x109D
    ∷ range 0x10A0 0x10C5
    ∷ range 0x10C7 0x10C7
    ∷ range 0x10CD 0x10CD
    ∷ range 0x10D0 0x10FA
    ∷ range 0x10FC 0x1248
    ∷ range 0x124A 0x124D
    ∷ range 0x1250 0x1256
    ∷ range 0x1258 0x1258
    ∷ range 0x125A 0x125D
    ∷ range 0x1260 0x1288
    ∷ range 0x128A 0x128D
    ∷ range 0x1290 0x12B0
    ∷ range 0x12B2 0x12B5
    ∷ range 0x12B8 0x12BE
    ∷ range 0x12C0 0x12C0
    ∷ range 0x12C2 0x12C5
    ∷ range 0x12C8 0x12D6
    ∷ range 0x12D8 0x1310
    ∷ range 0x1312 0x1315
    ∷ range 0x1318 0x135A
    ∷ range 0x135D 0x135F
    ∷ range 0x1380 0x138F
    ∷ range 0x13A0 0x13F5
    ∷ range 0x13F8 0x13FD
    ∷ range 0x1401 0x166C
    ∷ range 0x166F 0x167F
    ∷ range 0x1681 0x169A
    ∷ range 0x16A0 0x16EA
    ∷ range 0x16F1 0x16F8
    ∷ range 0x1700 0x1715
    ∷ range 0x171F 0x1734
    ∷ range 0x1740 0x1753
    ∷ range 0x1760 0x176C
    ∷ range 0x176E 0x1770
    ∷ range 0x1772 0x1773
    ∷ range 0x1780 0x17D3
    ∷ range 0x17D7 0x17D7
    ∷ range 0x17DC 0x17DD
    ∷ range 0x17E0 0x17E9
    ∷ range 0x180B 0x180D
    ∷ range 0x180F 0x1819
    ∷ range 0x1820 0x1878
    ∷ range 0x1880 0x18AA
    ∷ range 0x18B0 0x18F5
    ∷ range 0x1900 0x191E
    ∷ range 0x1920 0x192B
    ∷ range 0x1930 0x193B
    ∷ range 0x1946 0x196D
    ∷ range 0x1970 0x1974
    ∷ range 0x1980 0x19AB
    ∷ range 0x19B0 0x19C9
    ∷ range 0x19D0 0x19D9
    ∷ range 0x1A00 0x1A1B
    ∷ range 0x1A20 0x1A5E
    ∷ range 0x1A60 0x1A7C
    ∷ range 0x1A7F 0x1A89
    ∷ range 0x1A90 0x1A99
    ∷ range 0x1AA7 0x1AA7
    ∷ range 0x1AB0 0x1ACE
    ∷ range 0x1B00 0x1B4C
    ∷ range 0x1B50 0x1B59
    ∷ range 0x1B6B 0x1B73
    ∷ range 0x1B80 0x1BF3
    ∷ range 0x1C00 0x1C37
    ∷ range 0x1C40 0x1C49
    ∷ range 0x1C4D 0x1C7D
    ∷ range 0x1C80 0x1C8A
    ∷ range 0x1C90 0x1CBA
    ∷ range 0x1CBD 0x1CBF
    ∷ range 0x1CD0 0x1CD2
    ∷ range 0x1CD4 0x1CFA
    ∷ range 0x1D00 0x1F15
    ∷ range 0x1F18 0x1F1D
    ∷ range 0x1F20 0x1F45
    ∷ range 0x1F48 0x1F4D
    ∷ range 0x1F50 0x1F57
    ∷ range 0x1F59 0x1F59
    ∷ range 0x1F5B 0x1F5B
    ∷ range 0x1F5D 0x1F5D
    ∷ range 0x1F5F 0x1F7D
    ∷ range 0x1F80 0x1FB4
    ∷ range 0x1FB6 0x1FBC
    ∷ range 0x1FBE 0x1FBE
    ∷ range 0x1FC2 0x1FC4
    ∷ range 0x1FC6 0x1FCC
    ∷ range 0x1FD0 0x1FD3
    ∷ range 0x1FD6 0x1FDB
    ∷ range 0x1FE0 0x1FEC
    ∷ range 0x1FF2 0x1FF4
    ∷ range 0x1FF6 0x1FFC
    ∷ range 0x2071 0x2071
    ∷ range 0x207F 0x207F
    ∷ range 0x2090 0x209C
    ∷ range 0x20D0 0x20F0
    ∷ range 0x2102 0x2102
    ∷ range 0x2107 0x2107
    ∷ range 0x210A 0x2113
    ∷ []

ranges_3 : List CodePointRange
ranges_3 =
    range 0x2115 0x2115
    ∷ range 0x2119 0x211D
    ∷ range 0x2124 0x2124
    ∷ range 0x2126 0x2126
    ∷ range 0x2128 0x2128
    ∷ range 0x212A 0x212D
    ∷ range 0x212F 0x2139
    ∷ range 0x213C 0x213F
    ∷ range 0x2145 0x2149
    ∷ range 0x214E 0x214E
    ∷ range 0x2183 0x2184
    ∷ range 0x2C00 0x2CE4
    ∷ range 0x2CEB 0x2CF3
    ∷ range 0x2D00 0x2D25
    ∷ range 0x2D27 0x2D27
    ∷ range 0x2D2D 0x2D2D
    ∷ range 0x2D30 0x2D67
    ∷ range 0x2D6F 0x2D6F
    ∷ range 0x2D7F 0x2D96
    ∷ range 0x2DA0 0x2DA6
    ∷ range 0x2DA8 0x2DAE
    ∷ range 0x2DB0 0x2DB6
    ∷ range 0x2DB8 0x2DBE
    ∷ range 0x2DC0 0x2DC6
    ∷ range 0x2DC8 0x2DCE
    ∷ range 0x2DD0 0x2DD6
    ∷ range 0x2DD8 0x2DDE
    ∷ range 0x2DE0 0x2DFF
    ∷ range 0x2E2F 0x2E2F
    ∷ range 0x3005 0x3006
    ∷ range 0x302A 0x302F
    ∷ range 0x3031 0x3035
    ∷ range 0x303B 0x303C
    ∷ range 0x3041 0x3096
    ∷ range 0x3099 0x309A
    ∷ range 0x309D 0x309F
    ∷ range 0x30A1 0x30FA
    ∷ range 0x30FC 0x30FF
    ∷ range 0x3105 0x312F
    ∷ range 0x3131 0x318E
    ∷ range 0x31A0 0x31BF
    ∷ range 0x31F0 0x31FF
    ∷ range 0x3400 0x4DBF
    ∷ range 0x4E00 0xA48C
    ∷ range 0xA4D0 0xA4FD
    ∷ range 0xA500 0xA60C
    ∷ range 0xA610 0xA62B
    ∷ range 0xA640 0xA672
    ∷ range 0xA674 0xA67D
    ∷ range 0xA67F 0xA6E5
    ∷ range 0xA6F0 0xA6F1
    ∷ range 0xA717 0xA71F
    ∷ range 0xA722 0xA788
    ∷ range 0xA78B 0xA7CD
    ∷ range 0xA7D0 0xA7D1
    ∷ range 0xA7D3 0xA7D3
    ∷ range 0xA7D5 0xA7DC
    ∷ range 0xA7F2 0xA827
    ∷ range 0xA82C 0xA82C
    ∷ range 0xA840 0xA873
    ∷ range 0xA880 0xA8C5
    ∷ range 0xA8D0 0xA8D9
    ∷ range 0xA8E0 0xA8F7
    ∷ range 0xA8FB 0xA8FB
    ∷ range 0xA8FD 0xA92D
    ∷ range 0xA930 0xA953
    ∷ range 0xA960 0xA97C
    ∷ range 0xA980 0xA9C0
    ∷ range 0xA9CF 0xA9D9
    ∷ range 0xA9E0 0xA9FE
    ∷ range 0xAA00 0xAA36
    ∷ range 0xAA40 0xAA4D
    ∷ range 0xAA50 0xAA59
    ∷ range 0xAA60 0xAA76
    ∷ range 0xAA7A 0xAAC2
    ∷ range 0xAADB 0xAADD
    ∷ range 0xAAE0 0xAAEF
    ∷ range 0xAAF2 0xAAF6
    ∷ range 0xAB01 0xAB06
    ∷ range 0xAB09 0xAB0E
    ∷ range 0xAB11 0xAB16
    ∷ range 0xAB20 0xAB26
    ∷ range 0xAB28 0xAB2E
    ∷ range 0xAB30 0xAB5A
    ∷ range 0xAB5C 0xAB69
    ∷ range 0xAB70 0xABEA
    ∷ range 0xABEC 0xABED
    ∷ range 0xABF0 0xABF9
    ∷ range 0xAC00 0xD7A3
    ∷ range 0xD7B0 0xD7C6
    ∷ range 0xD7CB 0xD7FB
    ∷ range 0xF900 0xFA6D
    ∷ range 0xFA70 0xFAD9
    ∷ range 0xFB00 0xFB06
    ∷ range 0xFB13 0xFB17
    ∷ range 0xFB1D 0xFB28
    ∷ range 0xFB2A 0xFB36
    ∷ range 0xFB38 0xFB3C
    ∷ range 0xFB3E 0xFB3E
    ∷ range 0xFB40 0xFB41
    ∷ []

ranges_4 : List CodePointRange
ranges_4 =
    range 0xFB43 0xFB44
    ∷ range 0xFB46 0xFBB1
    ∷ range 0xFBD3 0xFD3D
    ∷ range 0xFD50 0xFD8F
    ∷ range 0xFD92 0xFDC7
    ∷ range 0xFDF0 0xFDFB
    ∷ range 0xFE00 0xFE0F
    ∷ range 0xFE20 0xFE2F
    ∷ range 0xFE70 0xFE74
    ∷ range 0xFE76 0xFEFC
    ∷ range 0xFF10 0xFF19
    ∷ range 0xFF21 0xFF3A
    ∷ range 0xFF41 0xFF5A
    ∷ range 0xFF66 0xFFBE
    ∷ range 0xFFC2 0xFFC7
    ∷ range 0xFFCA 0xFFCF
    ∷ range 0xFFD2 0xFFD7
    ∷ range 0xFFDA 0xFFDC
    ∷ range 0x10000 0x1000B
    ∷ range 0x1000D 0x10026
    ∷ range 0x10028 0x1003A
    ∷ range 0x1003C 0x1003D
    ∷ range 0x1003F 0x1004D
    ∷ range 0x10050 0x1005D
    ∷ range 0x10080 0x100FA
    ∷ range 0x101FD 0x101FD
    ∷ range 0x10280 0x1029C
    ∷ range 0x102A0 0x102D0
    ∷ range 0x102E0 0x102E0
    ∷ range 0x10300 0x1031F
    ∷ range 0x1032D 0x10340
    ∷ range 0x10342 0x10349
    ∷ range 0x10350 0x1037A
    ∷ range 0x10380 0x1039D
    ∷ range 0x103A0 0x103C3
    ∷ range 0x103C8 0x103CF
    ∷ range 0x10400 0x1049D
    ∷ range 0x104A0 0x104A9
    ∷ range 0x104B0 0x104D3
    ∷ range 0x104D8 0x104FB
    ∷ range 0x10500 0x10527
    ∷ range 0x10530 0x10563
    ∷ range 0x10570 0x1057A
    ∷ range 0x1057C 0x1058A
    ∷ range 0x1058C 0x10592
    ∷ range 0x10594 0x10595
    ∷ range 0x10597 0x105A1
    ∷ range 0x105A3 0x105B1
    ∷ range 0x105B3 0x105B9
    ∷ range 0x105BB 0x105BC
    ∷ range 0x105C0 0x105F3
    ∷ range 0x10600 0x10736
    ∷ range 0x10740 0x10755
    ∷ range 0x10760 0x10767
    ∷ range 0x10780 0x10785
    ∷ range 0x10787 0x107B0
    ∷ range 0x107B2 0x107BA
    ∷ range 0x10800 0x10805
    ∷ range 0x10808 0x10808
    ∷ range 0x1080A 0x10835
    ∷ range 0x10837 0x10838
    ∷ range 0x1083C 0x1083C
    ∷ range 0x1083F 0x10855
    ∷ range 0x10860 0x10876
    ∷ range 0x10880 0x1089E
    ∷ range 0x108E0 0x108F2
    ∷ range 0x108F4 0x108F5
    ∷ range 0x10900 0x10915
    ∷ range 0x10920 0x10939
    ∷ range 0x10980 0x109B7
    ∷ range 0x109BE 0x109BF
    ∷ range 0x10A00 0x10A03
    ∷ range 0x10A05 0x10A06
    ∷ range 0x10A0C 0x10A13
    ∷ range 0x10A15 0x10A17
    ∷ range 0x10A19 0x10A35
    ∷ range 0x10A38 0x10A3A
    ∷ range 0x10A3F 0x10A3F
    ∷ range 0x10A60 0x10A7C
    ∷ range 0x10A80 0x10A9C
    ∷ range 0x10AC0 0x10AC7
    ∷ range 0x10AC9 0x10AE6
    ∷ range 0x10B00 0x10B35
    ∷ range 0x10B40 0x10B55
    ∷ range 0x10B60 0x10B72
    ∷ range 0x10B80 0x10B91
    ∷ range 0x10C00 0x10C48
    ∷ range 0x10C80 0x10CB2
    ∷ range 0x10CC0 0x10CF2
    ∷ range 0x10D00 0x10D27
    ∷ range 0x10D30 0x10D39
    ∷ range 0x10D40 0x10D65
    ∷ range 0x10D69 0x10D6D
    ∷ range 0x10D6F 0x10D85
    ∷ range 0x10E80 0x10EA9
    ∷ range 0x10EAB 0x10EAC
    ∷ range 0x10EB0 0x10EB1
    ∷ range 0x10EC2 0x10EC4
    ∷ range 0x10EFC 0x10F1C
    ∷ range 0x10F27 0x10F27
    ∷ []

ranges_5 : List CodePointRange
ranges_5 =
    range 0x10F30 0x10F50
    ∷ range 0x10F70 0x10F85
    ∷ range 0x10FB0 0x10FC4
    ∷ range 0x10FE0 0x10FF6
    ∷ range 0x11000 0x11046
    ∷ range 0x11066 0x11075
    ∷ range 0x1107F 0x110BA
    ∷ range 0x110C2 0x110C2
    ∷ range 0x110D0 0x110E8
    ∷ range 0x110F0 0x110F9
    ∷ range 0x11100 0x11134
    ∷ range 0x11136 0x1113F
    ∷ range 0x11144 0x11147
    ∷ range 0x11150 0x11173
    ∷ range 0x11176 0x11176
    ∷ range 0x11180 0x111C4
    ∷ range 0x111C9 0x111CC
    ∷ range 0x111CE 0x111DA
    ∷ range 0x111DC 0x111DC
    ∷ range 0x11200 0x11211
    ∷ range 0x11213 0x11237
    ∷ range 0x1123E 0x11241
    ∷ range 0x11280 0x11286
    ∷ range 0x11288 0x11288
    ∷ range 0x1128A 0x1128D
    ∷ range 0x1128F 0x1129D
    ∷ range 0x1129F 0x112A8
    ∷ range 0x112B0 0x112EA
    ∷ range 0x112F0 0x112F9
    ∷ range 0x11300 0x11303
    ∷ range 0x11305 0x1130C
    ∷ range 0x1130F 0x11310
    ∷ range 0x11313 0x11328
    ∷ range 0x1132A 0x11330
    ∷ range 0x11332 0x11333
    ∷ range 0x11335 0x11339
    ∷ range 0x1133B 0x11344
    ∷ range 0x11347 0x11348
    ∷ range 0x1134B 0x1134D
    ∷ range 0x11350 0x11350
    ∷ range 0x11357 0x11357
    ∷ range 0x1135D 0x11363
    ∷ range 0x11366 0x1136C
    ∷ range 0x11370 0x11374
    ∷ range 0x11380 0x11389
    ∷ range 0x1138B 0x1138B
    ∷ range 0x1138E 0x1138E
    ∷ range 0x11390 0x113B5
    ∷ range 0x113B7 0x113C0
    ∷ range 0x113C2 0x113C2
    ∷ range 0x113C5 0x113C5
    ∷ range 0x113C7 0x113CA
    ∷ range 0x113CC 0x113D3
    ∷ range 0x113E1 0x113E2
    ∷ range 0x11400 0x1144A
    ∷ range 0x11450 0x11459
    ∷ range 0x1145E 0x11461
    ∷ range 0x11480 0x114C5
    ∷ range 0x114C7 0x114C7
    ∷ range 0x114D0 0x114D9
    ∷ range 0x11580 0x115B5
    ∷ range 0x115B8 0x115C0
    ∷ range 0x115D8 0x115DD
    ∷ range 0x11600 0x11640
    ∷ range 0x11644 0x11644
    ∷ range 0x11650 0x11659
    ∷ range 0x11680 0x116B8
    ∷ range 0x116C0 0x116C9
    ∷ range 0x116D0 0x116E3
    ∷ range 0x11700 0x1171A
    ∷ range 0x1171D 0x1172B
    ∷ range 0x11730 0x11739
    ∷ range 0x11740 0x11746
    ∷ range 0x11800 0x1183A
    ∷ range 0x118A0 0x118E9
    ∷ range 0x118FF 0x11906
    ∷ range 0x11909 0x11909
    ∷ range 0x1190C 0x11913
    ∷ range 0x11915 0x11916
    ∷ range 0x11918 0x11935
    ∷ range 0x11937 0x11938
    ∷ range 0x1193B 0x11943
    ∷ range 0x11950 0x11959
    ∷ range 0x119A0 0x119A7
    ∷ range 0x119AA 0x119D7
    ∷ range 0x119DA 0x119E1
    ∷ range 0x119E3 0x119E4
    ∷ range 0x11A00 0x11A3E
    ∷ range 0x11A47 0x11A47
    ∷ range 0x11A50 0x11A99
    ∷ range 0x11A9D 0x11A9D
    ∷ range 0x11AB0 0x11AF8
    ∷ range 0x11BC0 0x11BE0
    ∷ range 0x11BF0 0x11BF9
    ∷ range 0x11C00 0x11C08
    ∷ range 0x11C0A 0x11C36
    ∷ range 0x11C38 0x11C40
    ∷ range 0x11C50 0x11C59
    ∷ range 0x11C72 0x11C8F
    ∷ range 0x11C92 0x11CA7
    ∷ []

ranges_6 : List CodePointRange
ranges_6 =
    range 0x11CA9 0x11CB6
    ∷ range 0x11D00 0x11D06
    ∷ range 0x11D08 0x11D09
    ∷ range 0x11D0B 0x11D36
    ∷ range 0x11D3A 0x11D3A
    ∷ range 0x11D3C 0x11D3D
    ∷ range 0x11D3F 0x11D47
    ∷ range 0x11D50 0x11D59
    ∷ range 0x11D60 0x11D65
    ∷ range 0x11D67 0x11D68
    ∷ range 0x11D6A 0x11D8E
    ∷ range 0x11D90 0x11D91
    ∷ range 0x11D93 0x11D98
    ∷ range 0x11DA0 0x11DA9
    ∷ range 0x11EE0 0x11EF6
    ∷ range 0x11F00 0x11F10
    ∷ range 0x11F12 0x11F3A
    ∷ range 0x11F3E 0x11F42
    ∷ range 0x11F50 0x11F5A
    ∷ range 0x11FB0 0x11FB0
    ∷ range 0x12000 0x12399
    ∷ range 0x12480 0x12543
    ∷ range 0x12F90 0x12FF0
    ∷ range 0x13000 0x1342F
    ∷ range 0x13440 0x13455
    ∷ range 0x13460 0x143FA
    ∷ range 0x14400 0x14646
    ∷ range 0x16100 0x16139
    ∷ range 0x16800 0x16A38
    ∷ range 0x16A40 0x16A5E
    ∷ range 0x16A60 0x16A69
    ∷ range 0x16A70 0x16ABE
    ∷ range 0x16AC0 0x16AC9
    ∷ range 0x16AD0 0x16AED
    ∷ range 0x16AF0 0x16AF4
    ∷ range 0x16B00 0x16B36
    ∷ range 0x16B40 0x16B43
    ∷ range 0x16B50 0x16B59
    ∷ range 0x16B63 0x16B77
    ∷ range 0x16B7D 0x16B8F
    ∷ range 0x16D40 0x16D6C
    ∷ range 0x16D70 0x16D79
    ∷ range 0x16E40 0x16E7F
    ∷ range 0x16F00 0x16F4A
    ∷ range 0x16F4F 0x16F87
    ∷ range 0x16F8F 0x16F9F
    ∷ range 0x16FE0 0x16FE1
    ∷ range 0x16FE3 0x16FE4
    ∷ range 0x16FF0 0x16FF1
    ∷ range 0x17000 0x187F7
    ∷ range 0x18800 0x18CD5
    ∷ range 0x18CFF 0x18D08
    ∷ range 0x1AFF0 0x1AFF3
    ∷ range 0x1AFF5 0x1AFFB
    ∷ range 0x1AFFD 0x1AFFE
    ∷ range 0x1B000 0x1B122
    ∷ range 0x1B132 0x1B132
    ∷ range 0x1B150 0x1B152
    ∷ range 0x1B155 0x1B155
    ∷ range 0x1B164 0x1B167
    ∷ range 0x1B170 0x1B2FB
    ∷ range 0x1BC00 0x1BC6A
    ∷ range 0x1BC70 0x1BC7C
    ∷ range 0x1BC80 0x1BC88
    ∷ range 0x1BC90 0x1BC99
    ∷ range 0x1BC9D 0x1BC9E
    ∷ range 0x1CCF0 0x1CCF9
    ∷ range 0x1CF00 0x1CF2D
    ∷ range 0x1CF30 0x1CF46
    ∷ range 0x1D165 0x1D169
    ∷ range 0x1D16D 0x1D172
    ∷ range 0x1D17B 0x1D182
    ∷ range 0x1D185 0x1D18B
    ∷ range 0x1D1AA 0x1D1AD
    ∷ range 0x1D242 0x1D244
    ∷ range 0x1D400 0x1D454
    ∷ range 0x1D456 0x1D49C
    ∷ range 0x1D49E 0x1D49F
    ∷ range 0x1D4A2 0x1D4A2
    ∷ range 0x1D4A5 0x1D4A6
    ∷ range 0x1D4A9 0x1D4AC
    ∷ range 0x1D4AE 0x1D4B9
    ∷ range 0x1D4BB 0x1D4BB
    ∷ range 0x1D4BD 0x1D4C3
    ∷ range 0x1D4C5 0x1D505
    ∷ range 0x1D507 0x1D50A
    ∷ range 0x1D50D 0x1D514
    ∷ range 0x1D516 0x1D51C
    ∷ range 0x1D51E 0x1D539
    ∷ range 0x1D53B 0x1D53E
    ∷ range 0x1D540 0x1D544
    ∷ range 0x1D546 0x1D546
    ∷ range 0x1D54A 0x1D550
    ∷ range 0x1D552 0x1D6A5
    ∷ range 0x1D6A8 0x1D6C0
    ∷ range 0x1D6C2 0x1D6DA
    ∷ range 0x1D6DC 0x1D6FA
    ∷ range 0x1D6FC 0x1D714
    ∷ range 0x1D716 0x1D734
    ∷ range 0x1D736 0x1D74E
    ∷ []

ranges_7 : List CodePointRange
ranges_7 =
    range 0x1D750 0x1D76E
    ∷ range 0x1D770 0x1D788
    ∷ range 0x1D78A 0x1D7A8
    ∷ range 0x1D7AA 0x1D7C2
    ∷ range 0x1D7C4 0x1D7CB
    ∷ range 0x1D7CE 0x1D7FF
    ∷ range 0x1DA00 0x1DA36
    ∷ range 0x1DA3B 0x1DA6C
    ∷ range 0x1DA75 0x1DA75
    ∷ range 0x1DA84 0x1DA84
    ∷ range 0x1DA9B 0x1DA9F
    ∷ range 0x1DAA1 0x1DAAF
    ∷ range 0x1DF00 0x1DF1E
    ∷ range 0x1DF25 0x1DF2A
    ∷ range 0x1E000 0x1E006
    ∷ range 0x1E008 0x1E018
    ∷ range 0x1E01B 0x1E021
    ∷ range 0x1E023 0x1E024
    ∷ range 0x1E026 0x1E02A
    ∷ range 0x1E030 0x1E06D
    ∷ range 0x1E08F 0x1E08F
    ∷ range 0x1E100 0x1E12C
    ∷ range 0x1E130 0x1E13D
    ∷ range 0x1E140 0x1E149
    ∷ range 0x1E14E 0x1E14E
    ∷ range 0x1E290 0x1E2AE
    ∷ range 0x1E2C0 0x1E2F9
    ∷ range 0x1E4D0 0x1E4F9
    ∷ range 0x1E5D0 0x1E5FA
    ∷ range 0x1E7E0 0x1E7E6
    ∷ range 0x1E7E8 0x1E7EB
    ∷ range 0x1E7ED 0x1E7EE
    ∷ range 0x1E7F0 0x1E7FE
    ∷ range 0x1E800 0x1E8C4
    ∷ range 0x1E8D0 0x1E8D6
    ∷ range 0x1E900 0x1E94B
    ∷ range 0x1E950 0x1E959
    ∷ range 0x1EE00 0x1EE03
    ∷ range 0x1EE05 0x1EE1F
    ∷ range 0x1EE21 0x1EE22
    ∷ range 0x1EE24 0x1EE24
    ∷ range 0x1EE27 0x1EE27
    ∷ range 0x1EE29 0x1EE32
    ∷ range 0x1EE34 0x1EE37
    ∷ range 0x1EE39 0x1EE39
    ∷ range 0x1EE3B 0x1EE3B
    ∷ range 0x1EE42 0x1EE42
    ∷ range 0x1EE47 0x1EE47
    ∷ range 0x1EE49 0x1EE49
    ∷ range 0x1EE4B 0x1EE4B
    ∷ range 0x1EE4D 0x1EE4F
    ∷ range 0x1EE51 0x1EE52
    ∷ range 0x1EE54 0x1EE54
    ∷ range 0x1EE57 0x1EE57
    ∷ range 0x1EE59 0x1EE59
    ∷ range 0x1EE5B 0x1EE5B
    ∷ range 0x1EE5D 0x1EE5D
    ∷ range 0x1EE5F 0x1EE5F
    ∷ range 0x1EE61 0x1EE62
    ∷ range 0x1EE64 0x1EE64
    ∷ range 0x1EE67 0x1EE6A
    ∷ range 0x1EE6C 0x1EE72
    ∷ range 0x1EE74 0x1EE77
    ∷ range 0x1EE79 0x1EE7C
    ∷ range 0x1EE7E 0x1EE7E
    ∷ range 0x1EE80 0x1EE89
    ∷ range 0x1EE8B 0x1EE9B
    ∷ range 0x1EEA1 0x1EEA3
    ∷ range 0x1EEA5 0x1EEA9
    ∷ range 0x1EEAB 0x1EEBB
    ∷ range 0x1FBF0 0x1FBF9
    ∷ range 0x20000 0x2A6DF
    ∷ range 0x2A700 0x2B739
    ∷ range 0x2B740 0x2B81D
    ∷ range 0x2B820 0x2CEA1
    ∷ range 0x2CEB0 0x2EBE0
    ∷ range 0x2EBF0 0x2EE5D
    ∷ range 0x2F800 0x2FA1D
    ∷ range 0x30000 0x3134A
    ∷ range 0x31350 0x323AF
    ∷ range 0xE0100 0xE01EF
    ∷ []

unfoldable pub symbol_letter_ranges : List CodePointRange
unfolding ranges_0 ranges_1 ranges_2 ranges_3 ranges_4 ranges_5 ranges_6 ranges_7
symbol_letter_ranges =
    ranges_0
    ++ (ranges_1
        ++ (ranges_2 ++ (ranges_3 ++ (ranges_4 ++ (ranges_5 ++ (ranges_6 ++ (ranges_7)))))))
