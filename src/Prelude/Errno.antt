-- ===== src/Prelude/Errno.antt =====
-- The kernel's error numbers, negated as the functions return them.
use jcd543_mct_t6_linux_driv.Prelude.Int.{ℤ, neg}

abbrev pub eperm : ℤ
eperm = neg 1

abbrev pub eio : ℤ
eio = neg 5

abbrev pub e2big : ℤ
e2big = neg 7

abbrev pub enomem : ℤ
enomem = neg 12

abbrev pub enodev : ℤ
enodev = neg 19

abbrev pub einval : ℤ
einval = neg 22

abbrev pub eproto : ℤ
eproto = neg 71

abbrev pub ehostdown : ℤ
ehostdown = neg 112

abbrev pub espipe : ℤ
espipe = neg 29

abbrev pub eopnotsupp : ℤ
eopnotsupp = neg 95

abbrev pub eagain : ℤ
eagain = neg 11

abbrev pub efault : ℤ
efault = neg 14
