-- ===== src/Programs/Signalled.antt =====
-- qntsrv.cpp: a signal ends the program.
use quintses.Serving as Server
use quintses.Serving.{Serving, of_owner, of_thread, of_client, spurious, pushes, owner_step}
